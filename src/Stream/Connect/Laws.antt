-- ===== src/Stream/Connect/Laws.antt =====
-- `connect_with_timeout` tries the addresses in order.
use http_req.Prelude.{
  ℕ, suc, ◌+◌, ◌≡◌, refl, true, false, List, [], ◌∷◌, if◌then◌else◌, ◌==◌, length, arith,
  Bool-cases, inl, inr,
}
use http_req.Text.{Str}
use http_req.Error.{IoError, Outcome, ok, err, panic}
use http_req.Stream.Connect.{
  is_timed_out, not_resolved, after_attempt, attempts, connect_with_timeout,
}

module _ {Addr Tcp W : Type 0} (connect_timeout : Addr → ℕ → W → Outcome IoError Tcp × W)
    (timeout : ℕ) (debug : Str → Str) (host : Str) where
  -- What attempts in order may come to: the first address that answers; the first error by a time-out;
  -- the last address' error; without addresses, that the host was not resolved.
  pub data Comes : List Addr → W → Outcome IoError Tcp × W → Type 0 where
    no_address :
        {w : W} {o : Outcome IoError Tcp × W}
        → o ≡ (err (not_resolved debug host), w)
        → Comes [] w o
    connects :
        {a : Addr} {addrs : List Addr} {w : W} {o : Outcome IoError Tcp × W} (stream : Tcp) (w' : W)
        → connect_timeout a timeout w ≡ (ok stream, w')
        → o ≡ (ok stream, w')
        → Comes (a ∷ addrs) w o
    times_out :
        {a : Addr} {addrs : List Addr} {w : W} {o : Outcome IoError Tcp × W} (e : IoError) (w' : W)
        → connect_timeout a timeout w ≡ (err e, w')
        → is_timed_out e.kind ≡ true
        → o ≡ (err e, w')
        → Comes (a ∷ addrs) w o
    last_fails :
        {a : Addr} {w : W} {o : Outcome IoError Tcp × W} (e : IoError) (w' : W)
        → connect_timeout a timeout w ≡ (err e, w')
        → is_timed_out e.kind ≡ false
        → o ≡ (err e, w')
        → Comes (a ∷ []) w o
    goes_on :
        {a b : Addr} {addrs : List Addr} {w : W} {o : Outcome IoError Tcp × W} (e : IoError)
        (w' : W)
        → connect_timeout a timeout w ≡ (err e, w')
        → is_timed_out e.kind ≡ false
        → Comes (b ∷ addrs) w' o
        → Comes (a ∷ b ∷ addrs) w o
    panics :
        {a : Addr} {addrs : List Addr} {w : W} {o : Outcome IoError Tcp × W} (w' : W)
        → connect_timeout a timeout w ≡ (panic, w')
        → o ≡ (panic, w')
        → Comes (a ∷ addrs) w o

  abbrev go : ℕ → ℕ → List Addr → W → Outcome IoError Tcp × W
  go idx count addrs w = attempts connect_timeout timeout debug host idx count addrs w

  abbrev ComesAt : List Addr → Type 0
  ComesAt addrs =
      (idx count : ℕ) (w : W) → idx + length addrs ≡ count → Comes addrs w (go idx count addrs w)

  abbrev tried :
      (W → Outcome IoError Tcp × W) → ℕ → ℕ → Outcome IoError Tcp × W → Outcome IoError Tcp × W
  tried = after_attempt connect_timeout timeout debug host

  failed :
      (idx count : ℕ) (a : Addr) (addrs : List Addr)
      → ComesAt addrs
      → idx + length (a ∷ addrs) ≡ count
      → (w w' : W) (e : IoError) → connect_timeout a timeout w ≡ (err e, w')
      → is_timed_out e.kind ≡ false
      → Comes (a ∷ addrs) w (if idx + 1 == count then (err e, w') else go (suc idx) count addrs w')
  failed idx count a [] ih h w w' e q n =
      let last : (idx + 1 == count) ≡ true = ground (arith, h) in rw last (last_fails e w' q n refl)
  failed idx count a (b ∷ addrs) ih h w w' e q n =
      let more_left : (idx + 1 == count) ≡ false = ground (arith, h) in
      rw more_left (goes_on e w' q n (ih (suc idx) count w' (omega (arith, h))))

  attempt :
      (idx count : ℕ) (a : Addr) (addrs : List Addr)
      → ComesAt addrs
      → idx + length (a ∷ addrs) ≡ count
      → (w : W) (o : Outcome IoError Tcp × W) → connect_timeout a timeout w ≡ o
      → Comes (a ∷ addrs) w (tried (λ w'. go (suc idx) count addrs w') idx count o)
  attempt idx count a addrs ih h w (ok stream, w') q = connects stream w' q refl
  attempt idx count a addrs ih h w (panic, w') q = panics w' q refl
  attempt idx count a addrs ih h w (err e, w') q = elim (Bool-cases (is_timed_out e.kind)) [
    | inl t ↦ rw t (times_out e w' q t refl)
    | inr n ↦ rw n (failed idx count a addrs ih h w w' e q n)
  ]

  comes : (addrs : List Addr) → ComesAt addrs
  unfolding attempts
  comes [] idx count w h = no_address refl
  comes (a ∷ addrs) idx count w h =
      attempt idx count a addrs (comes addrs) h w (connect_timeout a timeout w) refl

  -- If the resolver gives addresses, `connect_with_timeout` tries them in order and comes to what
  -- `Comes` says: the index that the loop counts finds the last address.
  pub connect_with_timeout_lem :
      (resolve : Str → ℕ → W → Outcome IoError (List Addr) × W) (port : ℕ) (addrs : List Addr)
      (w w' : W)
      → resolve host port w ≡ (ok addrs, w')
      → Comes addrs w' (connect_with_timeout connect_timeout timeout debug host resolve port w)
  unfolding connect_with_timeout
  connect_with_timeout_lem resolve port addrs w w' q =
      rw q (comes addrs 0 (length addrs) w' (omega arith))
