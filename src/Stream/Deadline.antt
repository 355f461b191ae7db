-- ===== src/Stream/Deadline.antt =====
-- src/stream.rs: `execute_with_deadline`. `clock` reads `Instant::now()` off the state. The fuel
-- bounds the rounds; `none` is that it was not enough.
use http_req.Prelude.{ℕ, zero, suc, ◌-◌, Bool, true, false, Option, none, some, if◌then◌else◌, ltb}
use http_req.Error.{Error, timeout, Outcome, ok, err, panic}

module _ {S : Type 0} (clock : S → ℕ) (func : ℕ → S → Outcome Error Bool × S) (deadline : ℕ) where
  abbrev pub after_call :
      (S → Option (Outcome Error Unit × S))
      → Outcome Error Bool × S
      → Option (Outcome Error Unit × S)
  after_call rest (ok true, s) = some (ok tt, s)
  after_call rest (ok false, s) = rest s
  after_call rest (err e, s) = some (err e, s)
  after_call rest (panic, s) = some (panic, s)

  -- The subtraction of instants stops at 0.
  unfoldable pub execute_with_deadline : ℕ → S → Option (Outcome Error Unit × S)
  execute_with_deadline zero s = none
  execute_with_deadline (suc f) s =
      if ltb deadline (clock s)
      then some (err timeout, s)
      else after_call (λ s'. execute_with_deadline f s') (func (deadline - clock s) s)
