-- ===== src/Request/Threads/Played.antt =====
-- Runs of the two threads by a schedule.
use http_req.Prelude.{
  ℕ, suc, ◌≡◌, refl, Bool, true, false, Option, none, some, List, [], ◌∷◌, length,
}
use http_req.Text.{Str}
use http_req.Reader.{Reader}
use http_req.Stream.Receive.Laws.{write_vec}
use http_req.Request.Client.{Request}
use http_req.Request.Threads.{State}
use http_req.Request.Threads.Steps.{
  worker_step, caller_step, Step, works, serves, Runs, start, next,
}

module _ (R : Reader) (same : Str → Str → Bool) (r : Request) (fuel : ℕ) where
  abbrev States : Type 0
  States = State R Str

  -- `true` is a step of the reading thread.
  abbrev pub turn : Bool → States → Option States
  turn true s = worker_step R fuel s
  turn false s = caller_step R write_vec same r s

  abbrev pub turned : Bool → Option States → Option States
  turned b none = none
  turned b (some s) = turn b s

  -- The last step comes first.
  abbrev pub play : List Bool → States → Option States
  play [] s = some s
  play (b ∷ bs) s = turned b (play bs s)

  abbrev Played : States → States → ℕ → Type 0
  Played s t n = Runs R write_vec same r fuel s false n t

  one_step : (b : Bool) (s t : States) → turn b s ≡ some t → Step R write_vec same r fuel s t
  one_step true s t e = works e
  one_step false s t e = serves e

  step_on :
      (b : Bool) (s t : States) (n : ℕ) (o : Option States)
      → turned b o ≡ some t
      → ((u : States) → o ≡ some u → Played s u n)
      → Played s t (suc n)
  step_on b s t n none e k = cc
  step_on b s t n (some u) e k = next (k u refl) (one_step b u t e)

  pub played : (bs : List Bool) (s t : States) → play bs s ≡ some t → Played s t (length bs)
  played [] s t e = start cc
  played (b ∷ bs) s t e = step_on b s t (length bs) (play bs s) e (played bs s)
