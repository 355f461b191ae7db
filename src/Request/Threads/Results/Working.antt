-- ===== src/Request/Threads/Results/Working.antt =====
-- A step of the reading thread keeps what holds in every state.
use http_req.Prelude.{
  ℕ, ◌≡◌, refl, sym, ap, Bool, Option, none, some, List, [], ◌∷◌, ◌++◌, ◌⊎◌, inl, inr, Bool-cases,
  append_assoc,
}
use http_req.Text.{Str, str}
use http_req.Error.{Error, Outcome, ok, err, panic}
use http_req.Reader.{Reader}
use http_req.Response.Message.{Response}
use http_req.Stream.Send.Laws.{joined}
use http_req.Stream.Head.{read_head}
use http_req.Request.Client.{Request}
use http_req.Request.Threads.{
  Params, Worker, heads, waits, sends, ended, Body, Got, gives, breaks_off, hangs, body_read,
  body_of, has_param, Caller, wants_head, goes_to, wants_body, returned, State,
}
use http_req.Request.Threads.Steps.{worker_step, head_sent, body_sent}
use http_req.Request.Threads.Working.{joined-append}
use http_req.Request.Threads.Results.{begins, reads, asks, Results, Final, InvAt, Inv, Kept}

body_of-cases :
    (R : Reader) (e : R.Rd) (p : Params)
    → ((b : Body R) × (body_of R e p ≡ sends b)) ⊎ (body_of R e p ≡ ended)
unfolding body_of
body_of-cases R e p = elim (Bool-cases (has_param (str "non-empty") p)) [
  | inl h ↦ rw h (inl (_, refl))
  | inr h ↦ rw h (inr refl)
]

module _ (R : Reader) (fuel : ℕ) (same : Str → Str → Bool) (r : Request) (d : R.Rd) where
  abbrev pub at : Worker R → Caller → List Str → Option Params → Str → State R Str
  at v c q ps w = record { worker = v; caller = c; queue = q; params = ps; writer = w }

  abbrev KeptIn : Bool → Option (State R Str) → Type 0
  KeptIn = Kept R fuel same r d

  abbrev Keeps : Bool → Caller → Worker R → List Str → Option Params → Str → Type 0
  Keeps late c v q ps w =
      InvAt R fuel same r d late c v q ps w → KeptIn late (worker_step R fuel (at v c q ps w))

  -- The body that a worker turns to, in front of its first read.
  turned :
      (late : Bool) (x : Response) (e : R.Rd) (f : Final R fuel same r d x e) (q : List Str)
      (w : Str)
      → q ≡ []
      → w ≡ []
      → KeptIn late (some (at (body_of R e (asks R fuel same r x)) (wants_body x) q none w))
  turned late x e f q w qe we = elim (body_of-cases R e (asks R fuel same r x)) [
    | inl (b, h) ↦ rw h (e, f, rw (h, we, qe) begins)
    | inr h ↦ rw h (e, f, (ended, rw (h, we, qe) begins, tt))
  ]

  -- In `send_head`.
  head_kept :
      (late : Bool) (e : R.Rd) (q : List Str) (w : Str) (o : Option (Str × R.Rd))
      → read_head R fuel d ≡ o
      → q ≡ []
      → w ≡ []
      → KeptIn late (head_sent R fuel (at (heads e) wants_head q none w) o)
  head_kept late e q w none h qe we = tt
  head_kept late e q w (some (head, e')) h qe we = (head, h, ap (λ k. k ++ head ∷ []) qe, refl, we)

  still :
      (late : Bool) (e : R.Rd) (y : Outcome Error Response) (q : List Str) (ps : Option Params)
      (w : Str) (o : Option (Str × R.Rd))
      → Results R fuel same r d late y w
      → KeptIn late (head_sent R fuel (at (heads e) (returned y) q ps w) o)
  still late e y q ps w none h = tt
  still late e y q ps w (some (head, e')) h = h

  heads_kept :
      (late : Bool) (c : Caller) (e : R.Rd) (q : List Str) (ps : Option Params) (w : Str)
      → Keeps late c (heads e) q ps w
  unfolding worker_step
  heads_kept late (returned o) e q ps w h = still late e o q ps w (read_head R fuel e) h
  heads_kept late wants_head e q ps w (ee, qe, pse, we) =
      rw (pse, ee) (head_kept late d q w (read_head R fuel d) refl qe we)
  heads_kept late (goes_to p r') e q ps w h = absurd h
  heads_kept late (wants_body x) e q ps w h = absurd h

  -- At `receiver_supp.recv()`.
  waits_kept :
      (late : Bool) (c : Caller) (e : R.Rd) (q : List Str) (ps : Option Params) (w : Str)
      → Keeps late c (waits e) q ps w
  unfolding worker_step
  waits_kept late (returned o) e q none w h = h
  waits_kept late (returned o) e q (some p) w h = h
  waits_kept late wants_head e q ps w (head, h, qe, pse, we) = rw pse tt
  waits_kept late (goes_to p r') e q ps w (head, x, h, z, k, pse) = rw pse tt
  waits_kept late (wants_body x) e q ps w (f, qe, pse, we) = rw pse (turned late x e f q w qe we)

  -- In the loop of `send_all`.
  body_kept :
      (late : Bool) (x : Response) (b : Body R) (q : List Str) (ps : Option Params) (w : Str)
      (g : Got R)
      → body_read R fuel b ≡ g
      → InvAt R fuel same r d late (wants_body x) (sends b) q ps w
      → KeptIn late (body_sent R fuel (at (sends b) (wants_body x) q ps w) g)
  body_kept late x b q ps w (gives (ok []) k) h (e, f, z) = (e, f, (sends b, z, rw h tt))
  body_kept late x b q ps w (gives (ok (c ∷ t)) k) h (e, f, z) = (
    e,
    f,
    rw (joined-append q (c ∷ t), sym (append_assoc w (joined q) (c ∷ t))) (reads c t b k z h),
  )
  body_kept late x b q ps w (gives (err y) k) h (e, f, z) = (e, f, (sends b, z, rw h tt))
  body_kept late x b q ps w (gives panic k) h (e, f, z) = (e, f, (sends b, z, rw h tt))
  body_kept late x b q ps w breaks_off h (e, f, z) = (e, f, (sends b, z, rw h tt))
  body_kept late x b q ps w hangs h (e, f, z) = tt

  left_kept :
      (late : Bool) (o : Outcome Error Response) (b : Body R) (q : List Str) (ps : Option Params)
      (w : Str) (g : Got R)
      → Results R fuel same r d late o w
      → KeptIn late (body_sent R fuel (at (sends b) (returned o) q ps w) g)
  left_kept late o b q ps w (gives (ok []) k) h = h
  left_kept late o b q ps w (gives (ok (c ∷ t)) k) h = h
  left_kept late o b q ps w (gives (err y) k) h = h
  left_kept late o b q ps w (gives panic k) h = h
  left_kept late o b q ps w breaks_off h = h
  left_kept late o b q ps w hangs h = tt

  sends_kept :
      (late : Bool) (c : Caller) (b : Body R) (q : List Str) (ps : Option Params) (w : Str)
      → Keeps late c (sends b) q ps w
  unfolding worker_step
  sends_kept late (returned o) b q ps w h = left_kept late o b q ps w (body_read R fuel b) h
  sends_kept late wants_head b q ps w h = absurd h
  sends_kept late (goes_to p r') b q ps w h = absurd h
  sends_kept late (wants_body x) b q ps w h = body_kept late x b q ps w (body_read R fuel b) refl h

  pub worker_step-Kept :
      (late : Bool) (s : State R Str)
      → Inv R fuel same r d late s
      → KeptIn late (worker_step R fuel s)
  worker_step-Kept late s h = go s.worker s.caller s.queue s.params s.writer h
    where
      go :
          (v : Worker R) (c : Caller) (q : List Str) (ps : Option Params) (w : Str)
          → Keeps late c v q ps w
      go (heads e) c q ps w h = heads_kept late c e q ps w h
      go (waits e) c q ps w h = waits_kept late c e q ps w h
      go (sends b) c q ps w h = sends_kept late c b q ps w h
      go ended c q ps w h = unfold worker_step in tt
