-- ===== src/Text/White.antt =====
-- `str::trim`, over the UTF-8 forms of the characters with the property White_Space.
pub mod Laws
use http_req.Prelude.{ℕ, zero, suc, Bool, ◌&&◌, ◌||◌, [], ◌∷◌, if◌then◌else◌, ◌==◌, leb, reverse}
use http_req.Text.{Str}

unfoldable pub is_ascii_white : ℕ → Bool
is_ascii_white c = (leb 9 c && leb c 13) || c == 32

-- U+0085 and U+00A0.
abbrev is_white_2 : ℕ → ℕ → Bool
is_white_2 a b = a == 0xc2 && (b == 0x85 || b == 0xa0)

-- U+1680, U+2000 to U+200A, U+2028, U+2029, U+202F, U+205F and U+3000.
abbrev is_white_3 : ℕ → ℕ → ℕ → Bool
is_white_3 a b c =
    (a == 0xe1 && b == 0x9a && c == 0x80)
    || (a == 0xe2
        && ((b == 0x80 && ((leb 0x80 c && leb c 0x8a) || c == 0xa8 || c == 0xa9 || c == 0xaf))
            || (b == 0x81 && c == 0x9f)))
    || (a == 0xe3 && b == 0x80 && c == 0x80)

-- The bytes of the white space character in front of a text, 0 if there is none.
unfoldable pub white_front : Str → ℕ
unfolding is_ascii_white
white_front [] = 0
white_front (a ∷ []) = if is_ascii_white a then 1 else 0
white_front (a ∷ b ∷ []) = if is_ascii_white a then 1 else if is_white_2 a b then 2 else 0
white_front (a ∷ b ∷ c ∷ s) =
    if is_ascii_white a then 1 else if is_white_2 a b then 2 else if is_white_3 a b c then 3 else 0

-- The same at the end of a text, whose bytes come in reverse.
unfoldable pub white_back : Str → ℕ
unfolding is_ascii_white
white_back [] = 0
white_back (a ∷ []) = if is_ascii_white a then 1 else 0
white_back (a ∷ b ∷ []) = if is_ascii_white a then 1 else if is_white_2 b a then 2 else 0
white_back (a ∷ b ∷ c ∷ s) =
    if is_ascii_white a then 1 else if is_white_2 b a then 2 else if is_white_3 c b a then 3 else 0

-- Drops white space while `white` finds some; the number is what is left to drop of one character.
unfoldable pub trim_with : (Str → ℕ) → ℕ → Str → Str
trim_with white k [] = []
trim_with white (suc k) (c ∷ s) = trim_with white k s
trim_with white zero (c ∷ s) = elim (white (c ∷ s)) [ zero ↦ c ∷ s | suc k ↦ trim_with white k s ]

unfoldable pub trim_start : Str → Str
unfolding trim_with white_front
trim_start = trim_with white_front 0

unfoldable pub trim_end : Str → Str
unfolding trim_with white_back
trim_end s = reverse (trim_with white_back 0 (reverse s))

unfoldable pub trim : Str → Str
unfolding trim_start trim_end
trim s = trim_end (trim_start s)
