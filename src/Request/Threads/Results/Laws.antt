-- ===== src/Request/Threads/Results/Laws.antt =====
-- What `Request::send` comes to over any stream, in whatever order its two threads are run.
use http_req.Prelude.{ℕ, ◌≡◌, refl, Bool, true, false, Option, some, List, [], inr}
use http_req.Text.{Str}
use http_req.Error.{Error, Outcome}
use http_req.Reader.{Reader}
use http_req.Response.Message.{Response}
use http_req.Stream.Receive.Laws.{write_vec}
use http_req.Request.Client.{Request}
use http_req.Request.Redirect.{RedirectPolicy}
use http_req.Request.Threads.{
  Params, Worker, heads, waits, sends, ended, Caller, goes_to, returned, State, spawned,
}
use http_req.Request.Threads.Steps.{
  worker_step, caller_step, expire, Step, works, serves, comes_back, Runs, start, next, expires,
}
use http_req.Request.Threads.Results.{Results, InvAt, Inv, Kept}
use http_req.Request.Threads.Results.Working.{worker_step-Kept}
use http_req.Request.Threads.Results.Serving.{caller_step-Kept, expire-Kept}

module _ (R : Reader) (fuel : ℕ) (same : Str → Str → Bool) (r : Request) (d : R.Rd) where
  abbrev InvIn : Bool → State R Str → Type 0
  InvIn = Inv R fuel same r d

  Kept-some :
      (late : Bool) (o : Option (State R Str)) (t : State R Str)
      → Kept R fuel same r d late o
      → o ≡ some t
      → InvIn late t
  Kept-some late o t h e = rw e at h

  -- A request behind a redirect may come back with anything.
  followed :
      (late : Bool) (v : Worker R) (c : Caller) (q : List Str) (ps : Option Params) (w : Str)
      (p : RedirectPolicy) (r' : Request) (o : Outcome Error Response) (w' : Str)
      → c ≡ goes_to p r'
      → InvAt R fuel same r d late c v q ps w
      → Results R fuel same r d late o w'
  followed late v c q ps w p r' o w' e h = go v (rw e at h)
    where
      go :
          (v : Worker R)
          → InvAt R fuel same r d late (goes_to p r') v q ps w
          → Results R fuel same r d late o w'
      go (heads e) h = absurd h
      go (sends b) h = absurd h
      go ended h = absurd h
      go (waits e) (head, x, h, k, n, pse) = inr (head, e, h, rw k (rw n tt))

  Step-Inv :
      (late : Bool) (s t : State R Str)
      → InvIn late s
      → Step R write_vec same r fuel s t
      → InvIn late t
  Step-Inv late s t h (works e) =
      Kept-some late (worker_step R fuel s) t (worker_step-Kept R fuel same r d late s h) e
  Step-Inv late s t h (serves e) =
      Kept-some late (caller_step R write_vec same r s) t
        (caller_step-Kept R fuel same r d late s h) e
  Step-Inv late s t h (comes_back p r' o w e q) =
      rw q (followed late s.worker s.caller s.queue s.params s.writer p r' o w e h)

  Runs-Inv :
      (s : State R Str)
      → InvIn false s
      → (late : Bool) (n : ℕ) (t : State R Str) → Runs R write_vec same r fuel s late n t
      → InvIn late t
  Runs-Inv s h late n t (start e) = rw e at h
  Runs-Inv s h late n u (next {t} run step) = Step-Inv late t u (Runs-Inv s h late _ t run) step
  Runs-Inv s h late n u (expires {t} run e) =
      Kept-some true (expire R t) u (expire-Kept R fuel same r d t) e

  begins-Inv : InvIn false (spawned R Str d [])
  unfolding spawned
  begins-Inv = (refl, refl, refl, refl)

  settled :
      (late : Bool) (c : Caller) (v : Worker R) (q : List Str) (ps : Option Params) (w : Str)
      (o : Outcome Error Response)
      → c ≡ returned o
      → InvAt R fuel same r d late c v q ps w
      → Results R fuel same r d late o w
  settled late c v q ps w o e h = rw e at h

-- Over any stream, also one with faults, and in whatever order the threads are run: once `send` has
-- a result, it is a time-out after the deadline, or what the head that was read makes of it: the
-- error of `from_head` or of the location, with nothing written; anything, where the request is
-- redirected; or the response. With the response the writer has nothing, if the length is 0, and
-- otherwise all that the reads of the body give up to the first that gives no bytes or fails.
pub runs-Results :
    (R : Reader) (fuel : ℕ) (same : Str → Str → Bool) (r : Request) (d : R.Rd) (late : Bool) (n : ℕ)
    (t : State R Str) (o : Outcome Error Response)
    → Runs R write_vec same r fuel (spawned R Str d []) late n t
    → t.caller ≡ returned o
    → Results R fuel same r d late o t.writer
runs-Results R fuel same r d late n t o run e =
    settled R fuel same r d late t.caller t.worker t.queue t.params t.writer o e
      (Runs-Inv R fuel same r d (spawned R Str d []) (begins-Inv R fuel same r d) late n t run)
