-- ===== src/Chunked/Bits.antt =====
-- `n << 4 | v` for a digit `v`: the shift leaves four zero bits, so `|` adds.
use Prim.Native.Nat.{bit_or, max, digits, bit_or-bitwise}
use http_req.Prelude.{ℕ, zero, suc, ◌+◌, ◌*◌, ◌/◌, ◌%◌, ◌≤◌, ◌<◌, ◌≡◌, refl, arith}

-- The digits' recursion does not depend on its count, if that is large enough.
or_digits : (n m a b : ℕ) → a ≤ n → a ≤ m → digits (λ y. y) max n a b ≡ digits (λ y. y) max m a b
or_digits zero zero zero b h k = refl
or_digits zero (suc m) zero b h k = refl
or_digits (suc n) zero zero b h k = refl
or_digits (suc n) (suc m) zero b h k = refl
or_digits (suc n) (suc m) (suc a) b h k =
    let half : digits (λ y. y) max n (suc a / 2) (b / 2)
        ≡ digits (λ y. y) max m (suc a / 2) (b / 2) =
      or_digits n m (suc a / 2) (b / 2) (omega arith) (omega arith) in
    rw half
or_digits zero m (suc a) b h k = absurd (omega arith)
or_digits (suc n) zero (suc a) b h k = absurd (omega arith)

-- The lowest bit apart from the others.
low_bit : (a b : ℕ) → bit_or a b ≡ bit_or (a / 2) (b / 2) * 2 + max (a % 2) (b % 2)
low_bit zero b = omega (arith, bit_or-bitwise 0 b, bit_or-bitwise 0 (b / 2))
low_bit (suc a) b = omega (
  arith,
  bit_or-bitwise (suc a) b,
  bit_or-bitwise (suc a / 2) (b / 2),
  or_digits a (suc a / 2) (suc a / 2) (b / 2) (omega arith) (omega arith),
)

bit_or-zero_below : (n a : ℕ) → a ≤ n → bit_or a 0 ≡ a
bit_or-zero_below n zero h = refl
bit_or-zero_below zero (suc a) h = absurd (omega arith)
bit_or-zero_below (suc n) (suc a) h =
    omega (arith, low_bit (suc a) 0, bit_or-zero_below n (suc a / 2) (omega arith))

pub bit_or_digit : (n v : ℕ) → v < 16 → bit_or (n * 16) v ≡ n * 16 + v
bit_or_digit n v h =
    let high : n * 16 / 2 / 2 / 2 / 2 ≡ n = omega arith in
    let low : v / 2 / 2 / 2 / 2 ≡ 0 = omega arith in
    let last : bit_or (n * 16 / 2 / 2 / 2 / 2) (v / 2 / 2 / 2 / 2) ≡ n =
      rw (high, low) (bit_or-zero_below n n (omega arith)) in
    omega (
      arith,
      low_bit (n * 16) v,
      low_bit (n * 16 / 2) (v / 2),
      low_bit (n * 16 / 2 / 2) (v / 2 / 2),
      low_bit (n * 16 / 2 / 2 / 2) (v / 2 / 2 / 2),
      last,
    )
