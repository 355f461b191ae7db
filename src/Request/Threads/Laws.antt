-- ===== src/Request/Threads/Laws.antt =====
-- What `Request::send` does behind the request message, whatever the order in which its two threads
-- are run: an exchange without faults, with a response that is not followed to another request.
use http_req.Prelude.{
  ℕ, zero, suc, ◌+◌, ◌*◌, ◌≤◌, ◌<◌, ◌≡◌, refl, sym, ap, ◌∙◌, Bool, true, false, Option, List, [],
  ◌++◌, length, arith, append-nil, ◌⊎◌, inl, inr,
}
use http_req.Text.{Str}
use http_req.Error.{Error, timeout, Outcome, ok, err, panic}
use http_req.Reader.{Reader, ReaderLaws}
use http_req.Response.Message.{Response}
use http_req.Stream.Receive.Laws.{write_vec}
use http_req.Stream.Send.Laws.{joined}
use http_req.Request.Client.{Request}
use http_req.Request.Threads.{
  Worker, heads, waits, sends, ended, Caller, wants_head, goes_to, wants_body, returned, State,
  spawned, Params,
}
use http_req.Request.Threads.Steps.{Step, Runs, start, next}
use http_req.Request.Threads.Invariant.{Answer, InvAt}
use http_req.Request.Threads.Going.{InvIn, Step-Inv, Runs-Inv, begins, Inv-Goes}

-- What the caller has got, if `send` is over: the response with all of the body, or a time-out,
-- which needs that the deadline has passed.
abbrev pub Got : Bool → Response → Str → Caller → Str → Type 0
Got late x p (returned (ok y)) w = (y ≡ x) × (w ≡ p)
Got late x p (returned (err e)) w = (e ≡ timeout) × (late ≡ true)
Got late x p (returned panic) w = ⊥
Got late x p _ w = Unit

module _ (R : Reader) (L : ReaderLaws R) (same : Str → Str → Bool) (r : Request) (x : Response)
    (p : Str) (a : Answer same r x p) where
  beginning :
      (late : Bool) (d : Worker R) (c : Caller) (q : List Str) (ps : Option Params) (w : Str)
      (n : ℕ)
      → InvAt R L same r x p a late d c q ps w n
      → ((rest : Str) × (p ≡ w ++ rest)) × Got late x p c w
  beginning late (heads d) wants_head q ps w n (y, qe, pse, we, k) = ((p, rw we refl), tt)
  beginning late (waits d) wants_head q ps w n (y, qe, pse, we, k) = ((p, rw we refl), tt)
  beginning late (sends b) wants_head q ps w n h = absurd h
  beginning late ended wants_head q ps w n h = absurd h
  beginning late d (goes_to policy r') q ps w n h = absurd h
  beginning late (heads d) (wants_body y) q ps w n h = absurd h
  beginning late (waits d) (wants_body y) q ps w n (z, ye, qe, pse, we, k) = ((p, rw we refl), tt)
  beginning late (sends b) (wants_body y) q ps w n (l, z, ye, pe, k) = ((joined q ++ l, pe), tt)
  beginning late ended (wants_body y) q ps w n (ye, pe, k) = ((joined q, pe), tt)
  beginning late d (returned (ok y)) q ps w n (alone, (ye, we)) =
      (([], sym we ∙ sym (append-nil w)), (ye, we))
  beginning late d (returned (err e)) q ps w n (alone, (ee, le, pe)) = (pe, (ee, le))
  beginning late d (returned panic) q ps w n (alone, e) = absurd e

  over_on_time :
      (d : Worker R) (c : Caller) (q : List Str) (ps : Option Params) (w : Str) (n : ℕ)
      (o : Outcome Error Response)
      → c ≡ returned o
      → InvAt R L same r x p a false d c q ps w n
      → (c ≡ returned (ok x)) × (w ≡ p)
  over_on_time d c q ps w n (ok y) e h =
      let (alone, (ye, we)) = rw e at h in (e ∙ ap (λ z. returned (ok z)) ye, we)
  over_on_time d c q ps w n (err y) e h =
      let (alone, (ee, le, pe)) = rw e at h in absurd (let z : false ≡ true = le in cc)
  over_on_time d c q ps w n panic e h = let (alone, z) = rw e at h in absurd z

  module _ (fuel : ℕ) (enough : length a.stream + (2 * length p + 1) < fuel) where
    abbrev RunsTo : State R Str → Bool → ℕ → State R Str → Type 0
    RunsTo s late n t = Runs R write_vec same r fuel s late n t

    before :
        (s t : State R Str)
        → Step R write_vec same r fuel s t
        → (n : ℕ) (u : State R Str) → RunsTo t false n u
        → RunsTo s false (suc n) u
    before s t step n u (start e) = next (start refl) (rw e at step)
    before s t step n u (next run last) = next (before s t step _ _ run) last

    abbrev Completes : State R Str → Type 0
    Completes s =
        (n : ℕ) × (t : State R Str) × RunsTo s false n t
        × (t.worker ≡ ended)
        × (t.caller ≡ returned (ok x))
        × (t.writer ≡ p)

    completes : (b n : ℕ) (s : State R Str) → n < b → InvIn R L same r x p a false n s → Completes s
    completes zero n s l h = absurd (omega arith)
    completes (suc b) n s l h = elim (Inv-Goes R L same r x p a fuel enough false n s h) [
      | inl (we, (o, ce)) ↦
          let (done, all) = over_on_time s.worker s.caller s.queue s.params s.writer n o ce h in
          (0, s, start refl, we, done, all)
      | inr (t, step) ↦
          let (m, less, i) = Step-Inv R L same r x p a fuel enough false n s t h step in
          let (k, u, run, we, done, all) = completes b m t (omega arith) i in
          (suc k, u, before s t step k u run, we, done, all)
    ]

-- A request is answered on a stream without faults by a head that `from_head` takes for a response,
-- which is not followed to another request, and by all of the body that `basic_info` asks for,
-- properly chunked if it asks for that; there is fuel for the stream.
-- In whatever order the threads are run, and whether or not the deadline passes: what the writer has
-- is at every moment the beginning of the body. `send` gives the response only when the writer has
-- all of the body, and fails with nothing but a time-out, and that only if the deadline has passed.
pub runs-Got :
    (R : Reader) (L : ReaderLaws R) (same : Str → Str → Bool) (r : Request) (x : Response) (p : Str)
    (a : Answer same r x p) (fuel : ℕ) (d : R.Rd) (late : Bool) (n : ℕ) (t : State R Str)
    → length a.stream + (2 * length p + 1) < fuel
    → L.Yields d a.stream
    → Runs R write_vec same r fuel (spawned R Str d []) late n t
    → ((rest : Str) × (p ≡ t.writer ++ rest)) × Got late x p t.caller t.writer
runs-Got R L same r x p a fuel d late n t enough y run =
    let (m, l, i) =
      Runs-Inv R L same r x p a fuel enough _ _ (begins R L same r x p a fuel enough d y) late n t
        run in
    beginning R L same r x p a late t.worker t.caller t.queue t.params t.writer m i

-- A request is answered on a stream without faults by a head that `from_head` takes for a response,
-- which is not followed to another request, and by all of the body that `basic_info` asks for,
-- properly chunked if it asks for that; there is fuel for the stream.
-- Then both threads come to an end: together they make at most six steps more than twice the body is
-- long, the passing of the deadline included.
pub runs_le :
    (R : Reader) (L : ReaderLaws R) (same : Str → Str → Bool) (r : Request) (x : Response) (p : Str)
    (a : Answer same r x p) (fuel : ℕ) (d : R.Rd) (late : Bool) (n : ℕ) (t : State R Str)
    → length a.stream + (2 * length p + 1) < fuel
    → L.Yields d a.stream
    → Runs R write_vec same r fuel (spawned R Str d []) late n t
    → n ≤ 2 * length p + 6
runs_le R L same r x p a fuel d late n t enough y run =
    let (m, l, i) =
      Runs-Inv R L same r x p a fuel enough _ _ (begins R L same r x p a fuel enough d y) late n t
        run in
    omega arith

-- A request is answered on a stream without faults by a head that `from_head` takes for a response,
-- which is not followed to another request, and by all of the body that `basic_info` asks for,
-- properly chunked if it asks for that; there is fuel for the stream.
-- Then the threads never wait for each other: in every state that they come to, also when the deadline
-- has passed, both are over or one of them can go on.
pub runs-IsOver :
    (R : Reader) (L : ReaderLaws R) (same : Str → Str → Bool) (r : Request) (x : Response) (p : Str)
    (a : Answer same r x p) (fuel : ℕ) (d : R.Rd) (late : Bool) (n : ℕ) (t : State R Str)
    → length a.stream + (2 * length p + 1) < fuel
    → L.Yields d a.stream
    → Runs R write_vec same r fuel (spawned R Str d []) late n t
    → ((t.worker ≡ ended) × ((o : Outcome Error Response) × (t.caller ≡ returned o)))
      ⊎ ((u : State R Str) × Step R write_vec same r fuel t u)
runs-IsOver R L same r x p a fuel d late n t enough y run =
    let (m, l, i) =
      Runs-Inv R L same r x p a fuel enough _ _ (begins R L same r x p a fuel enough d y) late n t
        run in
    Inv-Goes R L same r x p a fuel enough late m t i

-- A request is answered on a stream without faults by a head that `from_head` takes for a response,
-- which is not followed to another request, and by all of the body that `basic_info` asks for,
-- properly chunked if it asks for that; there is fuel for the stream.
-- From every state that the threads come to before the deadline, they can go on to the one in which
-- the reading thread is over, `send` has given the response, and the writer has the body.
pub runs_complete :
    (R : Reader) (L : ReaderLaws R) (same : Str → Str → Bool) (r : Request) (x : Response) (p : Str)
    (a : Answer same r x p) (fuel : ℕ) (d : R.Rd) (n : ℕ) (t : State R Str)
    → length a.stream + (2 * length p + 1) < fuel
    → L.Yields d a.stream
    → Runs R write_vec same r fuel (spawned R Str d []) false n t
    → (k : ℕ) × (u : State R Str) × Runs R write_vec same r fuel t false k u
      × (u.worker ≡ ended)
      × (u.caller ≡ returned (ok x))
      × (u.writer ≡ p)
runs_complete R L same r x p a fuel d n t enough y run =
    let (m, l, i) =
      Runs-Inv R L same r x p a fuel enough _ _ (begins R L same r x p a fuel enough d y) false n t
        run in
    completes R L same r x p a fuel enough (suc m) m t (omega arith) i
