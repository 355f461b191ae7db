-- ===== src/Request/Threads/Steps.antt =====
-- src/request.rs: what each of the two threads of `Request::send` does next.
use http_req.Prelude.{
  ℕ, suc, ◌≡◌, Bool, true, false, Option, none, some, List, [], ◌∷◌, ◌++◌, if◌then◌else◌, ltb,
}
use http_req.Text.{Str}
use http_req.Error.{IoError, Error, timeout, Outcome, ok, err, panic}
use http_req.Error.From.{convert_io, convert_recv_timeout, convert_send}
use http_req.Reader.{Reader}
use http_req.Uri.Access.{unwrap_or}
use http_req.Response.Message.{Response, from_head, basic_info, content_len}
use http_req.Stream.Head.{read_head}
use http_req.Request.Client.{Request}
use http_req.Request.Redirect.{RedirectPolicy}
use http_req.Request.Send.{Next, stays, goes, fails, breaks, next_request}
use http_req.Request.Threads.{
  Params, Worker, heads, waits, sends, ended, Got, gives, breaks_off, hangs, body_read, body_of,
  Caller, wants_head, goes_to, wants_body, returned, is_returned, State, is_ended,
}

-- A step of the reading thread; `none` is that it waits, hangs or is over. A reader that panics in
-- the head is taken for one that hangs: the caller gets `Timeout` from both.
module _ (R : Reader) {W : Type 0} (fuel : ℕ) where
  abbrev pub head_sent : State R W → Option (Str × R.Rd) → Option (State R W)
  head_sent s none = none
  head_sent s (some (head, r)) = some (record s {
    worker = waits r;
    queue = if is_returned s.caller then s.queue else s.queue ++ head ∷ [];
  })

  abbrev pub params_received : State R W → R.Rd → Option Params → Option (State R W)
  params_received s r (some p) = some (record s { worker = body_of R r p; params = none })
  params_received s r none =
      if is_returned s.caller then some (record s { worker = ended }) else none

  abbrev pub body_sent : State R W → Got R → Option (State R W)
  body_sent s (gives (ok []) b) = some (record s { worker = ended })
  body_sent s (gives (ok (c ∷ d)) b) = some (
      if is_returned s.caller
      then record s { worker = ended }
      else record s { worker = sends b; queue = s.queue ++ (c ∷ d) ∷ [] })
  body_sent s (gives (err e) b) = some (record s { worker = ended })
  body_sent s (gives panic b) = some (record s { worker = ended })
  body_sent s breaks_off = some (record s { worker = ended })
  body_sent s hangs = none

  abbrev pub works_at : State R W → Worker R → Option (State R W)
  works_at s (heads r) = head_sent s (read_head R fuel r)
  works_at s (waits r) = params_received s r s.params
  works_at s (sends b) = body_sent s (body_read R fuel b)
  works_at s ended = none

  unfoldable pub worker_step : State R W → Option (State R W)
  worker_step s = works_at s s.worker

-- A step of the calling thread; `none` is that it waits or is over.
module _ (R : Reader) {W : Type 0} (write_all : Str → W → Outcome IoError Unit × W)
    (same : Str → Str → Bool) (r : Request) where
  abbrev pub returns_with : State R W → Outcome Error Response → State R W
  returns_with s o = record s { caller = returned o }

  -- `sender_supp.send(params)?`, and the test of the length behind it.
  abbrev pub params_sent : State R W → Response → State R W
  params_sent s response =
      if is_ended R W s.worker then returns_with s (err (convert_send response)) else record s {
        caller =
            if ltb 0 (unwrap_or (content_len same response) 1)
            then wants_body response
            else returned (ok response);
        params = some (basic_info same response r.message.method);
      }

  abbrev pub decided : State R W → Response → Next → State R W
  decided s response stays = params_sent s response
  decided s response (goes p r') = record s { caller = goes_to p r' }
  decided s response (fails p e) = returns_with s (err e)
  decided s response (breaks p) = returns_with s panic

  abbrev pub head_received : State R W → Outcome Error Response → State R W
  head_received s (ok response) = decided s response (next_request same r response)
  head_received s (err e) = returns_with s (err e)
  head_received s panic = returns_with s panic

  -- A channel that is empty and has no sender is a `Timeout` here, and the end of the body below.
  abbrev pub take_head : State R W → List Str → Option (State R W)
  take_head s (head ∷ q) = some (head_received (record s { queue = q }) (from_head same head))
  take_head s [] =
      if is_ended R W s.worker then some (returns_with s (err (convert_recv_timeout tt))) else none

  abbrev pub written : State R W → Outcome IoError Unit × W → State R W
  written s (ok tt, w) = record s { writer = w }
  written s (err e, w) = record s { writer = w; caller = returned (err (convert_io e)) }
  written s (panic, w) = record s { writer = w; caller = returned panic }

  abbrev pub take_body : State R W → Response → List Str → Option (State R W)
  take_body s response (d ∷ q) = some (written (record s { queue = q }) (write_all d s.writer))
  take_body s response [] =
      if is_ended R W s.worker then some (returns_with s (ok response)) else none

  abbrev pub serves_at : State R W → Caller → Option (State R W)
  serves_at s wants_head = take_head s s.queue
  serves_at s (goes_to p r') = none
  serves_at s (wants_body response) = take_body s response s.queue
  serves_at s (returned o) = none

  unfoldable pub caller_step : State R W → Option (State R W)
  caller_step s = serves_at s s.caller

-- The deadline passes: at the head where nothing has come, in the body at any time.
module _ (R : Reader) {W : Type 0} where
  abbrev pub expires_at : State R W → Caller → List Str → Option (State R W)
  expires_at s wants_head [] = some (record s { caller = returned (err timeout) })
  expires_at s (wants_body response) q = some (record s { caller = returned (err timeout) })
  expires_at s _ q = none

  unfoldable pub expire : State R W → Option (State R W)
  expire s = expires_at s s.caller s.queue

-- What a thread does next, in whatever order the two are run; the request behind a redirect comes
-- back with any result, and may have written anything to the writer.
module _ (R : Reader) {W : Type 0} (write_all : Str → W → Outcome IoError Unit × W)
    (same : Str → Str → Bool) (r : Request) (fuel : ℕ) where
  pub data Step (s t : State R W) : Type 0 where
    works : worker_step R fuel s ≡ some t → Step s t
    serves : caller_step R write_all same r s ≡ some t → Step s t
    comes_back :
        (p : RedirectPolicy) (r' : Request) (o : Outcome Error Response) (w : W)
        → s.caller ≡ goes_to p r'
        → t ≡ record s { caller = returned o; writer = w }
        → Step s t

  -- The states that this many steps lead to; the Boolean is that the deadline has passed.
  pub data Runs (s : State R W) : Bool → ℕ → State R W → Type 0 where
    start : {t : State R W} → s ≡ t → Runs s false 0 t
    next :
        {t u : State R W} {late : Bool} {n : ℕ} → Runs s late n t → Step t u → Runs s late (suc n) u
    expires :
        {t u : State R W} {late : Bool} {n : ℕ}
        → Runs s late n t
        → expire R t ≡ some u
        → Runs s true (suc n) u
