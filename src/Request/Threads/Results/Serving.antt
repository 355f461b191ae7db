-- ===== src/Request/Threads/Results/Serving.antt =====
-- A step of the calling thread, and the passing of the deadline, keep what holds in every state.
use http_req.Prelude.{
  ℕ, ◌≡◌, refl, Bool, true, Option, none, some, List, [], ◌∷◌, inl, inr, Bool-cases, append_assoc,
  append-nil,
}
use http_req.Text.{Str}
use http_req.Error.{Error, Outcome, ok, err, panic}
use http_req.Reader.{Reader}
use http_req.Response.Message.{Response, from_head}
use http_req.Stream.Receive.Laws.{write_vec}
use http_req.Stream.Send.Laws.{joined}
use http_req.Request.Client.{Request}
use http_req.Request.Send.{Next, stays, goes, fails, breaks, next_request}
use http_req.Request.Threads.{
  Params, Worker, heads, waits, sends, ended, body_of, Caller, wants_head, goes_to, wants_body,
  returned, State,
}
use http_req.Request.Threads.Steps.{caller_step, expire, head_received, decided}
use http_req.Request.Threads.Results.{Relayed, asks, wants, Heads, InvAt, Inv, Kept}
use http_req.Request.Threads.Results.Working.{at}

module _ (R : Reader) (fuel : ℕ) (same : Str → Str → Bool) (r : Request) (d : R.Rd) where
  abbrev KeptIn : Bool → Option (State R Str) → Type 0
  KeptIn = Kept R fuel same r d

  abbrev state : Worker R → Caller → List Str → Option Params → Str → State R Str
  state = at R fuel same r d

  -- The head that has been received.
  stays_kept :
      (late : Bool) (e : R.Rd) (ps : Option Params) (w : Str) (head : Str) (x : Response)
      → Heads R fuel same r d head e
      → from_head same head ≡ ok x
      → next_request same r x ≡ stays
      → w ≡ []
      → KeptIn late (some (decided R write_vec same r (state (waits e) wants_head [] ps w) x stays))
  stays_kept late e ps w head x h k n we = elim (Bool-cases (wants R fuel same r x)) [
    | inl z ↦
        rw z
          (record { head = head; read = h; parsed = k; stays_here = n; wanted = z }, refl, refl, we)
    | inr z ↦ rw z (inr (head, e, h, rw k (rw n (refl, inl (z, we)))))
  ]

  decided_kept :
      (late : Bool) (e : R.Rd) (ps : Option Params) (w : Str) (head : Str) (x : Response) (n : Next)
      → Heads R fuel same r d head e
      → from_head same head ≡ ok x
      → next_request same r x ≡ n
      → ps ≡ none
      → w ≡ []
      → KeptIn late (some (decided R write_vec same r (state (waits e) wants_head [] ps w) x n))
  decided_kept late e ps w head x stays h k n pse we = stays_kept late e ps w head x h k n we
  decided_kept late e ps w head x (goes p r') h k n pse we = (head, x, h, k, n, pse)
  decided_kept late e ps w head x (fails p y) h k n pse we =
      inr (head, e, h, rw k (rw n (refl, we)))
  decided_kept late e ps w head x (breaks p) h k n pse we = inr (head, e, h, rw k (rw n (refl, we)))

  judged_kept :
      (late : Bool) (e : R.Rd) (ps : Option Params) (w : Str) (head : Str)
      (o : Outcome Error Response)
      → Heads R fuel same r d head e
      → from_head same head ≡ o
      → ps ≡ none
      → w ≡ []
      → KeptIn late (some (head_received R write_vec same r (state (waits e) wants_head [] ps w) o))
  judged_kept late e ps w head (ok x) h k pse we =
      decided_kept late e ps w head x (next_request same r x) h k refl pse we
  judged_kept late e ps w head (err y) h k pse we = inr (head, e, h, rw k (refl, we))
  judged_kept late e ps w head panic h k pse we = inr (head, e, h, rw k (refl, we))

  abbrev Keeps : Bool → Caller → Worker R → List Str → Option Params → Str → Type 0
  Keeps late c v q ps w =
      InvAt R fuel same r d late c v q ps w
      → KeptIn late (caller_step R write_vec same r (state v c q ps w))

  head_kept :
      (late : Bool) (v : Worker R) (q : List Str) (ps : Option Params) (w : Str)
      → Keeps late wants_head v q ps w
  unfolding caller_step
  head_kept late (heads e) q ps w (ee, qe, pse, we) = rw qe tt
  head_kept late (waits e) q ps w (head, h, qe, pse, we) =
      rw qe (judged_kept late e ps w head (from_head same head) h refl pse we)
  head_kept late (sends b) q ps w h = absurd h
  head_kept late ended q ps w h = absurd h

  body_kept :
      (late : Bool) (x : Response) (v : Worker R) (q : List Str) (ps : Option Params) (w : Str)
      → Keeps late (wants_body x) v q ps w
  unfolding caller_step
  body_kept late x (heads e) q ps w h = absurd h
  body_kept late x (waits e) q ps w (f, qe, pse, we) = rw qe tt
  body_kept late x (sends b) [] ps w h = tt
  body_kept late x (sends b) (t ∷ q) ps w (e, f, z) = (e, f, rw (append_assoc w t (joined q)) z)
  body_kept late x ended [] ps w (e, f, z) =
      let z' : Relayed R fuel (body_of R e (asks R fuel same r x)) w = rw (append-nil w) at z in
      inr (f.head, e, f.read, rw f.parsed (rw f.stays_here (refl, inr (f.wanted, z'))))
  body_kept late x ended (t ∷ q) ps w (e, f, z) = (e, f, rw (append_assoc w t (joined q)) z)

  pub caller_step-Kept :
      (late : Bool) (s : State R Str)
      → Inv R fuel same r d late s
      → KeptIn late (caller_step R write_vec same r s)
  caller_step-Kept late s h = go s.caller s.worker s.queue s.params s.writer h
    where
      go :
          (c : Caller) (v : Worker R) (q : List Str) (ps : Option Params) (w : Str)
          → Keeps late c v q ps w
      go wants_head v q ps w h = head_kept late v q ps w h
      go (goes_to p r') v q ps w h = unfold caller_step in tt
      go (wants_body x) v q ps w h = body_kept late x v q ps w h
      go (returned o) v q ps w h = unfold caller_step in tt

  pub expire-Kept : (s : State R Str) → KeptIn true (expire R s)
  unfolding expire
  expire-Kept s = go s.caller s.queue
    where
      go :
          (c : Caller) (q : List Str)
          → KeptIn true (expire R (state s.worker c q s.params s.writer))
      go wants_head [] = inl (refl, refl)
      go wants_head (t ∷ q) = tt
      go (goes_to p r') q = tt
      go (wants_body x) q = inl (refl, refl)
      go (returned o) q = tt
