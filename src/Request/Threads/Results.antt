-- ===== src/Request/Threads/Results.antt =====
-- What `Request::send` may come to behind the request message over any stream, also one that fails
-- or ends too early, and what holds in every state on the way.
pub mod Working
pub mod Serving
pub mod Laws
mod Tests
use http_req.Prelude.{ℕ, ◌≡◌, Bool, true, false, Option, none, some, List, [], ◌∷◌, ◌++◌, ltb, ◌⊎◌}
use http_req.Text.{Str}
use http_req.Error.{Error, timeout, Outcome, ok, err, panic}
use http_req.Reader.{Reader}
use http_req.Uri.Access.{unwrap_or}
use http_req.Response.Message.{Response, from_head, basic_info, content_len}
use http_req.Stream.Send.Laws.{joined}
use http_req.Stream.Head.{read_head}
use http_req.Request.Client.{Request}
use http_req.Request.Send.{Next, stays, goes, fails, breaks, next_request}
use http_req.Request.Threads.{
  Params, Worker, heads, waits, sends, ended, Body, Got, gives, breaks_off, hangs, body_read,
  body_of, Caller, wants_head, goes_to, wants_body, returned, State,
}

module _ (R : Reader) (fuel : ℕ) where
  -- From `b` the thread comes to a state by reads that give the bytes.
  pub data Came (b : Worker R) : Worker R → Str → Type 0 where
    begins : Came b b []
    reads :
        {w : Str} (c : ℕ) (d : Str) (k k' : Body R)
        → Came b (sends k) w
        → body_read R fuel k ≡ gives (ok (c ∷ d)) k'
        → Came b (sends k') (w ++ c ∷ d)

  -- A read that ends the loop of `send_all`.
  abbrev pub StopsAt : Got R → Type 0
  StopsAt (gives (ok []) b) = Unit
  StopsAt (gives (ok (c ∷ d)) b) = ⊥
  StopsAt (gives (err e) b) = Unit
  StopsAt (gives panic b) = Unit
  StopsAt breaks_off = Unit
  StopsAt hangs = ⊥

  abbrev pub Stops : Worker R → Type 0
  Stops ended = Unit
  Stops (sends b) = StopsAt (body_read R fuel b)
  Stops (heads e) = ⊥
  Stops (waits e) = ⊥

  -- The bytes are all that the reads give up to the first that gives none, be it the end of the
  -- stream or a fault.
  abbrev pub Relayed : Worker R → Str → Type 0
  Relayed b w = (v : Worker R) × Came b v w × Stops v

  module _ (same : Str → Str → Bool) (r : Request) where
    abbrev pub asks : Response → Params
    asks x = basic_info same x r.message.method

    -- `content_len > 0`
    abbrev pub wants : Response → Bool
    wants x = ltb 0 (unwrap_or (content_len same x) 1)

    -- What is written of a body behind the head, with the response.
    abbrev pub Delivered : R.Rd → Response → Str → Type 0
    Delivered e x w =
        ((wants x ≡ false) × (w ≡ [])) ⊎ ((wants x ≡ true) × Relayed (body_of R e (asks x)) w)

    abbrev pub Goes : R.Rd → Response → Outcome Error Response → Str → Next → Type 0
    Goes e x o w stays = (o ≡ ok x) × Delivered e x w
    Goes e x o w (goes p r') = Unit
    Goes e x o w (fails p y) = (o ≡ err y) × (w ≡ [])
    Goes e x o w (breaks p) = (o ≡ panic) × (w ≡ [])

    -- What the head leads to.
    abbrev pub Judged : R.Rd → Outcome Error Response → Str → Outcome Error Response → Type 0
    Judged e o w (ok x) = Goes e x o w (next_request same r x)
    Judged e o w (err y) = (o ≡ err y) × (w ≡ [])
    Judged e o w panic = (o ≡ panic) × (w ≡ [])

    module _ (d : R.Rd) where
      abbrev pub Heads : Str → R.Rd → Type 0
      Heads head e = read_head R fuel d ≡ some (head, e)

      -- A result of `send`, and what the writer has.
      abbrev pub Results : Bool → Outcome Error Response → Str → Type 0
      Results late o w =
          ((late ≡ true) × (o ≡ err timeout))
          ⊎ ((head : Str) × (e : R.Rd) × Heads head e × Judged e o w (from_head same head))

      -- The response that `send` goes on with.
      pub record Final (x : Response) (e : R.Rd) : Type 0 where
        pub head : Str
        pub read : Heads head e
        pub parsed : from_head same head ≡ ok x
        pub stays_here : next_request same r x ≡ stays
        pub wanted : wants x ≡ true

      abbrev pub InvAt : Bool → Caller → Worker R → List Str → Option Params → Str → Type 0
      InvAt late (returned o) v q ps w = Results late o w
      InvAt late wants_head (heads e) q ps w = (e ≡ d) × (q ≡ []) × (ps ≡ none) × (w ≡ [])
      InvAt late wants_head (waits e) q ps w =
          (head : Str) × Heads head e × (q ≡ head ∷ []) × (ps ≡ none) × (w ≡ [])
      InvAt late wants_head (sends b) q ps w = ⊥
      InvAt late wants_head ended q ps w = ⊥
      InvAt late (goes_to p r') (waits e) q ps w =
          (head : Str) × (x : Response) × Heads head e
          × (from_head same head ≡ ok x)
          × (next_request same r x ≡ goes p r')
          × (ps ≡ none)
      InvAt late (goes_to p r') (heads e) q ps w = ⊥
      InvAt late (goes_to p r') (sends b) q ps w = ⊥
      InvAt late (goes_to p r') ended q ps w = ⊥
      InvAt late (wants_body x) (heads e) q ps w = ⊥
      InvAt late (wants_body x) (waits e) q ps w =
          Final x e × (q ≡ []) × (ps ≡ some (asks x)) × (w ≡ [])
      InvAt late (wants_body x) (sends b) q ps w =
          (e : R.Rd) × Final x e × Came (body_of R e (asks x)) (sends b) (w ++ joined q)
      InvAt late (wants_body x) ended q ps w =
          (e : R.Rd) × Final x e × Relayed (body_of R e (asks x)) (w ++ joined q)

      abbrev pub Inv : Bool → State R Str → Type 0
      Inv late s = InvAt late s.caller s.worker s.queue s.params s.writer

      -- Where a step leads.
      abbrev pub Kept : Bool → Option (State R Str) → Type 0
      Kept late none = Unit
      Kept late (some t) = Inv late t
