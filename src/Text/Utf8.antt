-- ===== src/Text/Utf8.antt =====
-- `str::from_utf8`: the well-formed byte sequences of Unicode, and the offset up to which a text
-- is valid.
use http_req.Prelude.{
  ℕ, suc, ◌≤◌, ◌<◌, ◌≡◌, refl, Bool, false, true, ◌&&◌, Option, none, some, List, [], ◌∷◌,
  if◌then◌else◌, leb, ltb, arith, Option-cases, inl, inr,
}
use http_req.Text.{Str, is_continuation, starts_char}
use http_req.Text.Slices.{IsText}

-- The ranges of the bytes that follow the first byte of a character.
abbrev pub Ranges : Type 0
Ranges = List (ℕ × ℕ)

abbrev within : ℕ → ℕ → ℕ → Bool
within lo hi c = leb lo c && leb c hi

abbrev tail : Ranges
tail = (0x80, 0xbf) ∷ []

unfoldable pub followers : ℕ → Option Ranges
followers c =
    if ltb c 0x80
    then some []
    else if within 0xc2 0xdf c
    then some tail
    else if within 0xe0 0xe0 c
    then some ((0xa0, 0xbf) ∷ tail)
    else if within 0xed 0xed c
    then some ((0x80, 0x9f) ∷ tail)
    else if within 0xe1 0xef c
    then some ((0x80, 0xbf) ∷ tail)
    else if within 0xf0 0xf0 c
    then some ((0x90, 0xbf) ∷ (0x80, 0xbf) ∷ tail)
    else if within 0xf1 0xf3 c
    then some ((0x80, 0xbf) ∷ (0x80, 0xbf) ∷ tail)
    else if within 0xf4 0xf4 c
    then some ((0x80, 0x8f) ∷ (0x80, 0xbf) ∷ tail)
    else none

-- `start` is the offset of the current character, `pos` that of the next byte. `some v` is an
-- error with `valid_up_to() == v`.
unfoldable pub utf8_error_from : ℕ → ℕ → Ranges → Str → Option ℕ
unfolding followers
utf8_error_from start pos [] [] = none
utf8_error_from start pos (r ∷ rs) [] = some start
utf8_error_from start pos [] (c ∷ s) = elim (followers c) [
  | none ↦ some pos
  | some rs ↦ utf8_error_from pos (suc pos) rs s
]
utf8_error_from start pos ((lo, hi) ∷ rs) (c ∷ s) =
    if within lo hi c then utf8_error_from start (suc pos) rs s else some start

unfoldable pub utf8_error : Str → Option ℕ
unfolding utf8_error_from
utf8_error = utf8_error_from 0 0 []

-- The first byte of a character is no continuation byte; those that follow are.
abbrev AreHigh : Ranges → Type 0
AreHigh [] = Unit
AreHigh ((lo, hi) ∷ rs) = (128 ≤ lo) × AreHigh rs

followers_lem :
    (c : ℕ) {rs : Ranges}
    → followers c ≡ some rs
    → (is_continuation c ≡ false) × (c < 128 → rs ≡ []) × AreHigh rs
unfolding followers
followers_lem c h = ground arith

-- In a valid text no character goes on behind an ASCII byte.
utf8_error_from-IsText :
    (start pos : ℕ) (rs : Ranges) (s : Str)
    → AreHigh rs
    → utf8_error_from start pos rs s ≡ none
    → IsText s × (rs ≡ [] → starts_char s ≡ true)
unfolding utf8_error_from
utf8_error_from-IsText start pos [] [] a h = (tt, λ _. refl)
utf8_error_from-IsText start pos (r ∷ rs) [] a h = cc
utf8_error_from-IsText start pos [] (c ∷ s) a h = elim (Option-cases (followers c)) [
  | inl e ↦ absurd (ground arith)
  | inr (rs, e) ↦
      let (first, ascii, high) = followers_lem c e in
      let (t, whole) = utf8_error_from-IsText pos (suc pos) rs s high (ground arith) in
      ((λ l. whole (ascii l), t), λ _. ground arith)
]
utf8_error_from-IsText start pos ((lo, hi) ∷ rs) (c ∷ s) a h =
    let (t, whole) = utf8_error_from-IsText start (suc pos) rs s a.1 (ground arith) in
    ((λ l. absurd (ground arith), t), λ e. cc)

pub utf8_error-IsText : (s : Str) → utf8_error s ≡ none → IsText s × (starts_char s ≡ true)
unfolding utf8_error
utf8_error-IsText s h = let (t, whole) = utf8_error_from-IsText 0 0 [] s tt h in (t, whole refl)
