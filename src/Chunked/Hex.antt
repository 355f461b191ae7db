-- ===== src/Chunked/Hex.antt =====
-- `parse_hex_uint` reads a number of at most 16 hexadecimal digits, and nothing else.
use Prim.Native.Nat.{bit_or}
use http_req.Prelude.{
  ℕ, zero, suc, ◌+◌, ◌-◌, ◌*◌, ◌%◌, ◌^◌, ◌≤◌, ◌<◌, ◌≡◌, ◌↔◌, refl, sym, ap, ◌∙◌, Option, none, some,
  [], ◌∷◌, ◌==◌, length, arith, Option-cases, Bool-cases, inl, inr,
}
use http_req.Text.{Str}
use http_req.Error.{ok, err}
use http_req.Chunked.Line.{hex_value, parse_hex_from, parse_hex_uint}
use http_req.Chunked.Digits.{digit, hex_value-eq-digit}
use http_req.Chunked.Bits.{bit_or_digit}

-- The value of a text in base 16, if all its bytes are digits.
abbrev pub base_16 : ℕ → Str → Option ℕ
base_16 n [] = some n
base_16 n (v ∷ s) = elim (digit v) [ none ↦ none | some d ↦ base_16 (n * 16 + d) s ]

-- 16 to the power of the number of digits.
abbrev pub room : ℕ → ℕ
room zero = 1
room (suc i) = room i * 16

room_mono : (k i : ℕ) → room i ≤ room (k + i)
room_mono zero i = let e : 0 + i ≡ i = omega arith in rw e (omega arith)
room_mono (suc k) i =
    let e : suc k + i ≡ suc (k + i) = omega arith in rw e (omega (arith, room_mono k i))

pub hex_value-lt : (v : ℕ) {d : ℕ} → hex_value v ≡ some d → d < 16
unfolding hex_value
hex_value-lt v h = ground arith

-- The shift loses no bit while at most 15 digits have been read.
shift_in : (i n d : ℕ) → i < 16 → n < room i → d < 16 → bit_or (n * 2 ^ 4 % 2 ^ 64) d ≡ n * 16 + d
shift_in i n d h l k =
    let e : (15 - i) + i ≡ 15 = omega arith in
    let m : room i ≤ room 15 = rw e at (room_mono (15 - i) i) in
    let f : n * 2 ^ 4 % 2 ^ 64 ≡ n * 16 = omega arith in rw f (bit_or_digit n d k)

parse_hex_from_iff :
    (s : Str) (i n m : ℕ)
    → i ≤ 16
    → n < room i
    → (parse_hex_from i n s ≡ ok m) ↔ ((i + length s ≤ 16) × (base_16 n s ≡ some m))
unfolding parse_hex_from
parse_hex_from_iff [] i n m h l =
    (λ e. (omega arith, cc), λ (p : (i + 0 ≤ 16) × (some n ≡ some m)). cc)
parse_hex_from_iff (v ∷ s) i n m h l = elim (Bool-cases (i == 16)) [
  | inl t ↦
      let full : i ≡ 16 = ground arith in
      (λ e. absurd (let f : err _ ≡ ok m = rw t at e in cc), λ p. absurd (omega (arith, p.0)))
  | inr t ↦ elim (Option-cases (hex_value v)) [
    | inl e ↦ (
      λ q. absurd (let f : err _ ≡ ok m = rw (t, e, parse_hex_from) at q in cc),
      λ p.
          absurd
            (let f : none ≡ some m = rw (sym (hex_value-eq-digit v) ∙ e, base_16) at p.1 in cc),
    )
    | inr (d, e) ↦
        let k : d < 16 = hex_value-lt v e in
        let below : i < 16 = ground arith in
        let ih = parse_hex_from_iff s (suc i) (n * 16 + d) m (omega arith) (omega arith) in
        let same : parse_hex_from i n (v ∷ s) ≡ parse_hex_from (suc i) (n * 16 + d) s =
          rw (t, e, parse_hex_from)
            (ap (λ x. parse_hex_from (suc i) x s) (shift_in i n d below l k)) in
        let value : base_16 n (v ∷ s) ≡ base_16 (n * 16 + d) s =
          rw (sym (hex_value-eq-digit v) ∙ e, base_16) refl in
        (
          λ q. let (x, y) = ih.0 (sym same ∙ q) in (omega arith, value ∙ y),
          λ p. same ∙ ih.1 (omega (arith, p.0), sym value ∙ p.1),
        )
  ]
]

-- `parse_hex_uint` gives `m` exactly for the texts of at most 16 bytes, all of them among
-- 0123456789abcdef or 0123456789ABCDEF, whose value in base 16, each byte worth its place there, is
-- `m`: nothing is lost or wrapped.
pub parse_hex_uint_iff :
    (s : Str) (m : ℕ) → (parse_hex_uint s ≡ ok m) ↔ ((length s ≤ 16) × (base_16 0 s ≡ some m))
unfolding parse_hex_uint
parse_hex_uint_iff s m =
    let (f, g) = parse_hex_from_iff s 0 0 m (omega arith) (omega arith) in
    (λ e. let (x, y) = f e in (omega arith, y), λ p. g (omega (arith, p.0), p.1))
