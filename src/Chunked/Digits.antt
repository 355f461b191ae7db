-- ===== src/Chunked/Digits.antt =====
-- The hexadecimal digits of src/chunked.rs, listed in the order of their values.
use http_req.Prelude.{
  ℕ, zero, suc, ◌≤◌, ◌<◌, ◌≡◌, refl, sym, ◌∙◌, Bool, true, false, ◌&&◌, Option, none, some, [], ◌∷◌,
  if◌then◌else◌, ◌==◌, ltb, arith, Bool-cases, inl, inr,
}
use http_req.Text.{Str, str}
use http_req.Chunked.Line.{hex_value}

-- The place of a byte in a text, counted from `i`.
abbrev pub place : ℕ → ℕ → Str → Option ℕ
place v i [] = none
place v i (c ∷ s) = if v == c then some i else place v (suc i) s

abbrev pub or_else : Option ℕ → Option ℕ → Option ℕ
or_else (some d) o = some d
or_else none o = o

-- The value of a digit: its place among the digits, in lower or in upper case.
abbrev pub digit : ℕ → Option ℕ
digit v = or_else (place v 0 (str "0123456789abcdef")) (place v 0 (str "0123456789ABCDEF"))

abbrev same_value : Option ℕ → Option ℕ → Bool
same_value none none = true
same_value (some a) (some b) = a == b
same_value _ _ = false

same_value→eq : (o p : Option ℕ) → same_value o p ≡ true → o ≡ p
same_value→eq none none h = refl
same_value→eq (some a) (some b) h = let e : a ≡ b = ground arith in rw e refl
same_value→eq none (some b) h = cc
same_value→eq (some a) none h = cc

-- The two functions agree below `n`.
abbrev agree : ℕ → Bool
agree zero = true
agree (suc n) = same_value (hex_value n) (digit n) && agree n

agree_below : (n v : ℕ) → agree n ≡ true → v < n → hex_value v ≡ digit v
agree_below zero v h l = absurd (omega arith)
agree_below (suc n) v h l = elim (Bool-cases (v == n)) [
  | inl e ↦
      let z : v ≡ n = ground arith in
      let k : same_value (hex_value n) (digit n) ≡ true = ground arith in
      rw z (same_value→eq (hex_value n) (digit n) k)
  | inr e ↦ agree_below n v (ground arith) (ground arith)
]

ascii_agree : agree 128 ≡ true
unfolding hex_value
ascii_agree = refl

abbrev all_ascii : Str → Bool
all_ascii [] = true
all_ascii (c ∷ s) = ltb c 128 && all_ascii s

no_place : (v i : ℕ) (s : Str) → 128 ≤ v → all_ascii s ≡ true → place v i s ≡ none
no_place v i [] l h = refl
no_place v i (c ∷ s) l h =
    let e : (v == c) ≡ false = ground arith in rw e (no_place v (suc i) s l (ground arith))

no_value : (v : ℕ) → 128 ≤ v → hex_value v ≡ none
unfolding hex_value
no_value v l = ground arith

pub hex_value-eq-digit : (v : ℕ) → hex_value v ≡ digit v
hex_value-eq-digit v = elim (Bool-cases (ltb v 128)) [
  | inl h ↦ agree_below 128 v ascii_agree (ground arith)
  | inr h ↦
      let l : 128 ≤ v = ground arith in
      no_value v l
      ∙ sym (
          rw
            (
              no_place v 0 (str "0123456789abcdef") l refl,
              no_place v 0 (str "0123456789ABCDEF") l refl,
            )
            refl)
]
