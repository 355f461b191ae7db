-- ===== src/Error/Laws.antt =====
-- What holds of the results of `?` chains.
use http_req.Prelude.{◌≡◌, ◌≢◌}
use http_req.Error.{Outcome, ok, err, panic, ◌>>=◌, map_err}

-- The value that a result holds has the property, and nothing panics.
abbrev pub Ensures : {E A : Type 0} → (A → Type 0) → Outcome E A → Type 0
Ensures P (ok a) = P a
Ensures P (err e) = Unit
Ensures P panic = ⊥

module _ {E A B : Type 0} where
  pub Ensures-bind :
      (P : A → Type 0) (Q : B → Type 0) (m : Outcome E A) (f : A → Outcome E B)
      → Ensures P m
      → ((a : A) → P a → Ensures Q (f a))
      → Ensures Q (m >>= f)
  Ensures-bind P Q (ok a) f h k = k a h
  Ensures-bind P Q (err e) f h k = tt
  Ensures-bind P Q panic f h k = absurd h

module _ {E F A : Type 0} where
  pub Ensures-map_err :
      (P : A → Type 0) (g : E → F) (m : Outcome E A) → Ensures P m → Ensures P (map_err g m)
  Ensures-map_err P g (ok a) h = h
  Ensures-map_err P g (err e) h = tt
  Ensures-map_err P g panic h = h

module _ {E A : Type 0} where
  pub Ensures-ok : (P : A → Type 0) (m : Outcome E A) {a : A} → Ensures P m → m ≡ ok a → P a
  Ensures-ok P m h e = rw e at h

  pub Ensures-ne-panic : (P : A → Type 0) (m : Outcome E A) → Ensures P m → m ≢ panic
  Ensures-ne-panic P m h e = rw e at h
