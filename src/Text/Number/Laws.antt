-- ===== src/Text/Number/Laws.antt =====
-- The decimal form of a number is parsed back.
use http_req.Prelude.{
  ℕ, zero, suc, ◌+◌, ◌-◌, ◌*◌, ◌/◌, ◌%◌, ◌≤◌, ◌<◌, ◌≡◌, ◌≢◌, refl, sym, ap, ◌∙◌, true, false, ◌||◌,
  [], ◌∷◌, ◌++◌, ◌==◌, ltb, lt→ltb, le→ltb-false, Bool-cases, inl, inr, arith,
}
use http_req.Text.{Str, starts_char}
use http_req.Text.Search.{Lacks}
use http_req.Text.Number.{
  Parsed, number, not_number, is_digit, parse_digits, parse_uint, decimal_fuel, decimal,
}

abbrev pub AreDigits : Str → Type 0
AreDigits [] = Unit
AreDigits (c ∷ s) = (is_digit c ≡ true) × AreDigits s

AreDigits-append : (s : Str) (c : ℕ) → AreDigits s → is_digit c ≡ true → AreDigits (s ++ c ∷ [])
AreDigits-append [] c h d = (d, tt)
AreDigits-append (a ∷ s) c h d = (h.0, AreDigits-append s c h.1 d)

abbrev then_digits : ℕ → Parsed → Str → Parsed
then_digits bound (number n) s = parse_digits bound n s
then_digits bound (not_number e) s = not_number e

parse_digits-append :
    (bound acc : ℕ) (s t : Str)
    → parse_digits bound acc (s ++ t) ≡ then_digits bound (parse_digits bound acc s) t
unfolding parse_digits
parse_digits-append bound acc [] t = refl
parse_digits-append bound acc (c ∷ s) t = elim (Bool-cases (is_digit c)) [
  | inl d ↦ elim (Bool-cases (ltb (acc * 10 + (c - b'0')) bound)) [
    | inl l ↦ rw (d, l) (parse_digits-append bound (acc * 10 + (c - b'0')) s t)
    | inr l ↦ rw (d, l) refl
  ]
  | inr d ↦ rw d refl
]

parse_digits_one :
    (bound acc c : ℕ)
    → is_digit c ≡ true
    → acc * 10 + (c - b'0') < bound
    → parse_digits bound acc (c ∷ []) ≡ number (acc * 10 + (c - b'0'))
unfolding parse_digits
parse_digits_one bound acc c d l = ground arith

abbrev DigitsAt : ℕ → Type 0
DigitsAt f =
    (n : ℕ)
    → n < f
    → AreDigits (decimal_fuel f n)
      × ((bound : ℕ) → n < bound → parse_digits bound 0 (decimal_fuel f n) ≡ number n)

decimal_fuel_low : (f n : ℕ) → n < 10 → decimal_fuel (suc f) n ≡ (b'0' + n) ∷ []
unfolding decimal_fuel
decimal_fuel_low f n l = rw (lt→ltb n 10 l) refl

decimal_fuel_high :
    (f n : ℕ) → 10 ≤ n → decimal_fuel (suc f) n ≡ decimal_fuel f (n / 10) ++ (b'0' + n % 10) ∷ []
unfolding decimal_fuel
decimal_fuel_high f n l = rw (le→ltb-false n 10 l) refl

is_digit_lem : (k : ℕ) → k < 10 → is_digit (b'0' + k) ≡ true
is_digit_lem k l = ground arith

digits_high :
    (f n : ℕ)
    → DigitsAt f
    → n < suc f
    → 10 ≤ n
    → AreDigits (decimal_fuel (suc f) n)
      × ((bound : ℕ) → n < bound → parse_digits bound 0 (decimal_fuel (suc f) n) ≡ number n)
digits_high f n ih l big =
    let (digits, back) = ih (n / 10) (omega arith) in
    rw (decimal_fuel_high f n big) (
      AreDigits-append (decimal_fuel f (n / 10)) (b'0' + n % 10) digits
          (is_digit_lem (n % 10) (omega arith)),
      λ bound k.
          parse_digits-append bound 0 (decimal_fuel f (n / 10)) ((b'0' + n % 10) ∷ [])
          ∙ ap (λ x. then_digits bound x ((b'0' + n % 10) ∷ [])) (back bound (omega arith))
          ∙ parse_digits_one bound (n / 10) (b'0' + n % 10) (is_digit_lem (n % 10) (omega arith))
              (omega arith)
          ∙ ap number (omega arith),
    )

digits_low :
    (f n : ℕ)
    → n < 10
    → AreDigits (decimal_fuel (suc f) n)
      × ((bound : ℕ) → n < bound → parse_digits bound 0 (decimal_fuel (suc f) n) ≡ number n)
digits_low f n l = rw (decimal_fuel_low f n l) (
  (is_digit_lem n l, tt),
  λ bound k.
      parse_digits_one bound 0 (b'0' + n) (is_digit_lem n l) (omega arith)
      ∙ ap number (omega arith),
)

digits : (f : ℕ) → DigitsAt f
digits zero n l = absurd (omega arith)
digits (suc f) n l = elim (Bool-cases (ltb n 10)) [
  | inl e ↦ digits_low f n (ground (arith, e))
  | inr e ↦ digits_high f n (digits f) l (ground (arith, e))
]

parse_uint-digits :
    (bound : ℕ) (s : Str) {n : ℕ}
    → AreDigits s
    → parse_digits bound 0 s ≡ number n
    → (s ≡ [] → ⊥)
    → parse_uint bound s ≡ number n
unfolding parse_uint
parse_uint-digits bound [] d h ne = absurd (ne refl)
parse_uint-digits bound (c ∷ []) d h ne =
    let z : (c == b'+' || c == b'-') ≡ false = ground (arith, d.0) in rw z h
parse_uint-digits bound (c ∷ b ∷ s) d h ne =
    let z : (c == b'+') ≡ false = ground (arith, d.0) in rw z h

append-ne-nil : (s : Str) (c : ℕ) → (s ++ c ∷ [] ≡ []) → ⊥
append-ne-nil [] c h = cc
append-ne-nil (a ∷ s) c h = cc

decimal_fuel-ne-nil : (f n : ℕ) → (decimal_fuel (suc f) n ≡ []) → ⊥
decimal_fuel-ne-nil f n h = elim (Bool-cases (ltb n 10)) [
  | inl e ↦
      (let z : (b'0' + n) ∷ [] ≡ [] = sym (decimal_fuel_low f n (ground (arith, e))) ∙ h in cc)
  | inr e ↦
      append-ne-nil (decimal_fuel f (n / 10)) (b'0' + n % 10)
        (sym (decimal_fuel_high f n (ground (arith, e))) ∙ h)
]

-- The decimal form of a number that fits the type is parsed back to it.
pub parse_uint-decimal : (bound n : ℕ) → n < bound → parse_uint bound (decimal n) ≡ number n
unfolding decimal
parse_uint-decimal bound n l =
    let (d, back) = digits (suc n) n (omega arith) in
    parse_uint-digits bound (decimal_fuel (suc n) n) d (back bound l) (decimal_fuel-ne-nil n n)

pub decimal-AreDigits : (n : ℕ) → AreDigits (decimal n)
unfolding decimal
decimal-AreDigits n = (digits (suc n) n (omega arith)).0

pub decimal-ne-nil : (n : ℕ) → decimal n ≢ []
unfolding decimal
decimal-ne-nil n = decimal_fuel-ne-nil n n

pub AreDigits-Lacks : (s : Str) (c : ℕ) → is_digit c ≡ false → AreDigits s → Lacks c s
AreDigits-Lacks [] c l d = tt
AreDigits-Lacks (a ∷ s) c l d = (ground (arith, d.0), AreDigits-Lacks s c l d.1)

pub AreDigits-starts_char : (s : Str) → AreDigits s → starts_char s ≡ true
AreDigits-starts_char [] d = refl
AreDigits-starts_char (a ∷ s) d = ground (arith, d.0)
