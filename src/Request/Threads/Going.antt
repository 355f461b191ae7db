-- ===== src/Request/Threads/Going.antt =====
-- The runs of the two threads of `Request::send`, in any order of their steps, on an exchange
-- without faults whose response is not followed to another request.
use http_req.Prelude.{
  ℕ, ◌+◌, ◌*◌, ◌≤◌, ◌<◌, ◌≡◌, refl, ap, ◌∙◌, Bool, true, false, Option, none, some, List, [], ◌∷◌,
  ◌++◌, length, arith, length-append, ◌⊎◌, inl, inr,
}
use http_req.Text.{Str}
use http_req.Error.{Error, Outcome}
use http_req.Reader.{Reader, ReaderLaws}
use http_req.Response.Message.{Response}
use http_req.Stream.Receive.Laws.{write_vec}
use http_req.Stream.Send.Laws.{joined}
use http_req.Stream.Head.Laws.{read_head_lem}
use http_req.Request.Client.{Request}
use http_req.Request.Redirect.{RedirectPolicy}
use http_req.Request.Threads.{
  Worker, heads, waits, sends, ended, Caller, wants_head, goes_to, wants_body, returned, State,
  spawned, body_read, Body, Params,
}
use http_req.Request.Threads.Steps.{
  worker_step, caller_step, expire, works_at, head_sent, params_received, body_sent, take_head,
  Step, works, serves, comes_back, Runs, start, next, expires,
}
use http_req.Request.Threads.Bodies.{Comes, more, over, body_read_lem}
use http_req.Request.Threads.Invariant.{Answer, InvAt, Inv, Kept}
use http_req.Request.Threads.Working.{at, worker_step-Kept}
use http_req.Request.Threads.Serving.{caller_step-Kept, expire-Kept}

module _ (R : Reader) (L : ReaderLaws R) (same : Str → Str → Bool) (r : Request) (x : Response)
    (p : Str) (a : Answer same r x p) where
  abbrev pub InvIn : Bool → ℕ → State R Str → Type 0
  InvIn late = Inv R L same r x p a late

  Kept-some :
      (late : Bool) (n : ℕ) (o : Option (State R Str)) (t : State R Str)
      → Kept R L same r x p a late n o
      → o ≡ some t
      → (m : ℕ) × (m < n) × InvIn late m t
  Kept-some late n o t h e = rw e at h

  not_followed :
      (late : Bool) (d : Worker R) (c : Caller) (q : List Str) (ps : Option Params) (w : Str)
      (n : ℕ) {policy : RedirectPolicy} {r' : Request}
      → c ≡ goes_to policy r'
      → InvAt R L same r x p a late d c q ps w n
      → ⊥
  not_followed late d c q ps w n e h = rw e at h

  module _ (fuel : ℕ) (enough : length a.stream + (2 * length p + 1) < fuel) where
    pub Step-Inv :
        (late : Bool) (n : ℕ) (s t : State R Str)
        → InvIn late n s
        → Step R write_vec same r fuel s t
        → (m : ℕ) × (m < n) × InvIn late m t
    Step-Inv late n s t h (works e) =
        Kept-some late n (worker_step R fuel s) t
          (worker_step-Kept R L same r x p a late fuel enough n s h) e
    Step-Inv late n s t h (serves e) =
        Kept-some late n (caller_step R write_vec same r s) t
          (caller_step-Kept R L same r x p a late n s h) e
    Step-Inv late n s t h (comes_back policy r' o w e q) =
        absurd (not_followed late s.worker s.caller s.queue s.params s.writer n e h)

    -- Each step takes one of the steps that are left.
    pub Runs-Inv :
        (k : ℕ) (s : State R Str)
        → InvIn false k s
        → (late : Bool) (n : ℕ) (t : State R Str) → Runs R write_vec same r fuel s late n t
        → (m : ℕ) × (m + n ≤ k) × InvIn late m t
    Runs-Inv k s h late n t (start e) = (k, omega arith, rw e at h)
    Runs-Inv k s h late n u (next {t} run step) =
        let (m, l, i) = Runs-Inv k s h late _ t run in
        let (m', l', i') = Step-Inv late m t u i step in (m', omega arith, i')
    Runs-Inv k s h late n u (expires {t} {late = before} run e) =
        let (m, l, i) = Runs-Inv k s h before _ t run in
        let (m', l', i') =
          Kept-some true m (expire R t) u (expire-Kept R L same r x p a before m t i) e in
        (m', omega arith, i')

    pub begins :
        (d : R.Rd) → L.Yields d a.stream → InvIn false (2 * length p + 6) (spawned R Str d [])
    unfolding spawned
    begins d y = (y, refl, refl, refl, omega arith)

    -- A state in which a thread can go on, without the deadline.
    abbrev pub Goes : State R Str → Type 0
    Goes t = (u : State R Str) × Step R write_vec same r fuel t u

    abbrev pub IsOver : State R Str → Type 0
    IsOver t = (t.worker ≡ ended) × ((o : Outcome Error Response) × (t.caller ≡ returned o))

    sending :
        (t : State R Str) (b : Body R) (l : Str)
        → t.worker ≡ sends b
        → Comes R L l (body_read R fuel b)
        → Goes t
    unfolding worker_step
    sending t b l e (more c d m b' q cut h) =
        (_, works (ap (works_at R fuel t) e ∙ ap (body_sent R fuel t) q))
    sending t b l e (over b' q cut) =
        (_, works (ap (works_at R fuel t) e ∙ ap (body_sent R fuel t) q))

    heading : (t : State R Str) (d : R.Rd) → t.worker ≡ heads d → L.Yields d a.stream → Goes t
    unfolding worker_step
    heading t d e y =
        let (d', z, y') =
          read_head_lem R L fuel d a.stream a.head a.wire y a.starts (omega arith) in
        (_, works (ap (works_at R fuel t) e ∙ ap (head_sent R fuel t) z))

    goes :
        (late : Bool) (d : Worker R) (c : Caller) (q : List Str) (ps : Option Params) (w : Str)
        (n : ℕ)
        → InvAt R L same r x p a late d c q ps w n
        → let t = at R L same r x p a late d c q ps w in IsOver t ⊎ Goes t
    unfolding worker_step caller_step
    goes late (heads d) wants_head q ps w n (y, qe, pse, we, k) = inr (heading _ d refl y)
    goes late (waits d) wants_head q ps w n (y, qe, pse, we, k) = inr (
      _,
      serves (
          ap (take_head R write_vec same r (at R L same r x p a late (waits d) wants_head q ps w))
            qe),
    )
    goes late (sends b) wants_head q ps w n h = absurd h
    goes late ended wants_head q ps w n h = absurd h
    goes late d (goes_to policy r') q ps w n h = absurd h
    goes late (heads d) (wants_body y) q ps w n h = absurd h
    goes late (waits d) (wants_body y) q ps w n (z, ye, qe, pse, we, k) = inr (
      _,
      works (
          ap (params_received R fuel (at R L same r x p a late (waits d) (wants_body y) q ps w) d)
            pse),
    )
    goes late (sends b) (wants_body y) q ps w n (l, z, ye, pe, k) =
        let le : length l ≤ length p =
          omega
            (arith, ap length pe, length-append w (joined q ++ l), length-append (joined q) l) in
        inr (sending _ b l refl (body_read_lem R L fuel b l (omega arith) z))
    goes late ended (wants_body y) [] ps w n h = inr (_, serves refl)
    goes late ended (wants_body y) (e ∷ q) ps w n h = inr (_, serves refl)
    goes late (heads d) (returned o) q ps w n ((y, pse, k), e) = inr (heading _ d refl y)
    goes late (waits d) (returned o) q none w n h = inr (_, works refl)
    goes late (waits d) (returned o) q (some v) w n h = inr (_, works refl)
    goes late (sends b) (returned o) q ps w n ((l, z, le, k), e) =
        inr (sending _ b l refl (body_read_lem R L fuel b l (omega arith) z))
    goes late ended (returned o) q ps w n h = inl (refl, (o, refl))

    pub Inv-Goes : (late : Bool) (n : ℕ) (t : State R Str) → InvIn late n t → IsOver t ⊎ Goes t
    Inv-Goes late n t h = goes late t.worker t.caller t.queue t.params t.writer n h
