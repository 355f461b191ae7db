-- ===== src/Request/Threads/Invariant.antt =====
-- What holds in every state that the two threads come to: an exchange without faults, with a
-- response that is not followed to another request.
use http_req.Prelude.{
  ℕ, ◌+◌, ◌*◌, ◌≤◌, ◌<◌, ◌≡◌, Bool, true, false, Option, none, some, List, [], ◌∷◌, ◌++◌, length,
}
use http_req.Text.{Str, str}
use http_req.Error.{Error, timeout, Outcome, ok, err, panic}
use http_req.Reader.{Reader, ReaderLaws}
use http_req.Chunked.Stream.{Encoded, payload}
use http_req.Response.Message.{Response, from_head, basic_info}
use http_req.Stream.Send.{buf_size}
use http_req.Stream.Send.Laws.{joined}
use http_req.Stream.Head.Laws.{HeadOf}
use http_req.Request.Client.{Request}
use http_req.Request.Send.{stays, next_request}
use http_req.Request.Threads.{
  Params, has_param, Worker, heads, waits, sends, ended, Caller, wants_head, goes_to, wants_body,
  returned, State,
}
use http_req.Request.Threads.Bodies.{Holds}

-- The body that the parameters ask for, of what stands behind the head.
pub data Carries (params : Params) (wire p : Str) : Type 0 where
  nothing : has_param (str "non-empty") params ≡ false → p ≡ [] → Carries params wire p
  as_it_is :
      has_param (str "non-empty") params ≡ true
      → has_param (str "chunked") params ≡ false
      → p ≡ wire
      → Carries params wire p
  in_chunks :
      (ds : List Str)
      → has_param (str "non-empty") params ≡ true
      → has_param (str "chunked") params ≡ true
      → Encoded buf_size ds wire
      → p ≡ payload ds
      → Carries params wire p

-- The request `r` is answered by a head, which is the response `x`, and the body `p`.
pub record Answer (same : Str → Str → Bool) (r : Request) (x : Response) (p : Str) : Type 0 where
  pub stream : Str
  pub head : Str
  pub wire : Str
  pub starts : HeadOf wire stream head
  pub parsed : from_head same head ≡ ok x
  pub final : next_request same r x ≡ stays
  pub carries : Carries (basic_info same x r.message.method) wire p

module _ (R : Reader) (L : ReaderLaws R) (same : Str → Str → Bool) (r : Request) (x : Response)
    (p : Str) (a : Answer same r x p) (late : Bool) where
  abbrev pub asked : Params
  asked = basic_info same x r.message.method

  -- The result and what is written: all of the body with the response, or its beginning with a
  -- time-out, which comes only if the deadline has passed.
  abbrev pub Ends : Outcome Error Response → Str → Type 0
  Ends (ok y) w = (y ≡ x) × (w ≡ p)
  Ends (err e) w = (e ≡ timeout) × (late ≡ true) × ((rest : Str) × (p ≡ w ++ rest))
  Ends panic w = ⊥

  abbrev pub Expected : Option Params → Type 0
  Expected none = Unit
  Expected (some y) = y ≡ asked

  -- A reading thread that is alone has at most `n` steps before it.
  abbrev pub Alone : Worker R → Option Params → ℕ → Type 0
  Alone (heads d) ps n = L.Yields d a.stream × (ps ≡ none) × (2 * length p + 4 ≤ n)
  Alone (waits d) ps n = L.Yields d a.wire × Expected ps × (2 * length p + 2 ≤ n)
  Alone (sends b) ps n = (l : Str) × Holds R L b l × (length l ≤ length p) × (2 * length l + 1 ≤ n)
  Alone ended ps n = Unit

  abbrev pub InvAt : Worker R → Caller → List Str → Option Params → Str → ℕ → Type 0
  InvAt (heads d) wants_head q ps w n =
      L.Yields d a.stream × (q ≡ []) × (ps ≡ none) × (w ≡ []) × (2 * length p + 6 ≤ n)
  InvAt (waits d) wants_head q ps w n =
      L.Yields d a.wire × (q ≡ a.head ∷ []) × (ps ≡ none) × (w ≡ []) × (2 * length p + 5 ≤ n)
  InvAt (sends b) wants_head q ps w n = ⊥
  InvAt ended wants_head q ps w n = ⊥
  InvAt d (goes_to policy r') q ps w n = ⊥
  InvAt (heads d) (wants_body y) q ps w n = ⊥
  InvAt (waits d) (wants_body y) q ps w n =
      L.Yields d a.wire × (y ≡ x) × (q ≡ []) × (ps ≡ some asked) × (w ≡ []) × (2 * length p + 3 ≤ n)
  InvAt (sends b) (wants_body y) q ps w n =
      (l : Str) × Holds R L b l
      × (y ≡ x)
      × (p ≡ w ++ (joined q ++ l))
      × (2 * length l + length q + 2 ≤ n)
  InvAt ended (wants_body y) q ps w n = (y ≡ x) × (p ≡ w ++ joined q) × (length q + 1 ≤ n)
  InvAt d (returned o) q ps w n = Alone d ps n × Ends o w

  -- At most `n` steps are left, and the writer has the beginning of the body: what is missing is in
  -- the channel and on the stream, in that order.
  abbrev pub Inv : ℕ → State R Str → Type 0
  Inv n s = InvAt s.worker s.caller s.queue s.params s.writer n

  -- Where a step leads.
  abbrev pub Kept : ℕ → Option (State R Str) → Type 0
  Kept n none = Unit
  Kept n (some t) = (m : ℕ) × (m < n) × Inv m t
