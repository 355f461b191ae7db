-- ===== src/Text.antt =====
-- What the program uses of Rust's `str`: a text is the list of its UTF-8 bytes, offsets count
-- bytes, and a slice that is out of range or cuts a character panics.
pub mod Slices
pub mod Ranges
pub mod Search
pub mod White
pub mod Pieces
pub mod Number
pub mod Utf8
use Prim.Native.Char.{code}
use Prim.Native.String.{String}
use http_req.Prelude.{
  ℕ, zero, suc, ◌+◌, ◌-◌, Bool, true, false, ◌&&◌, not, Option, none, some, List, [], ◌∷◌, ◌++◌,
  if◌then◌else◌, ◌==◌, leb, length, take, drop, is_some,
}
use mathlib.Core.Option as Option

abbrev pub Str : Type 0
Str = List ℕ

-- The bytes of an ASCII literal.
abbrev pub str : String → Str
str String.[] = []
str (String.◌∷◌ c s) = code c ∷ str s

unfoldable pub str_eq : Str → Str → Bool
str_eq [] [] = true
str_eq (a ∷ s) (b ∷ t) = a == b && str_eq s t
str_eq _ _ = false

-- `s.starts_with(pat)`
unfoldable pub starts_with : Str → Str → Bool
starts_with s [] = true
starts_with [] (b ∷ pat) = false
starts_with (a ∷ s) (b ∷ pat) = a == b && starts_with s pat

-- `s.find(pat)`: the offset of the first match.
unfoldable pub find : Str → Str → Option ℕ
unfolding starts_with
find [] pat = if starts_with [] pat then some 0 else none
find (a ∷ s) pat = if starts_with (a ∷ s) pat then some 0 else Option.map suc (find s pat)

-- `s.rfind(pat)`: the offset of the last match.
unfoldable pub rfind : Str → Str → Option ℕ
unfolding starts_with
rfind [] pat = if starts_with [] pat then some 0 else none
rfind (a ∷ s) pat = elim (rfind s pat) [
  | some i ↦ some (suc i)
  | none ↦ if starts_with (a ∷ s) pat then some 0 else none
]

unfoldable pub contains : Str → Str → Bool
unfolding find
contains s pat = is_some (find s pat)

abbrev pub is_continuation : ℕ → Bool
is_continuation c = leb 0x80 c && leb c 0xbf

abbrev pub starts_char : Str → Bool
starts_char [] = true
starts_char (c ∷ s) = not (is_continuation c)

unfoldable pub is_char_boundary : Str → ℕ → Bool
is_char_boundary s zero = true
is_char_boundary [] (suc i) = false
is_char_boundary (c ∷ s) (suc zero) = starts_char s
is_char_boundary (c ∷ s) (suc (suc i)) = is_char_boundary s (suc i)

-- `s.get(a..b)`; `&s[a..b]` panics where this is `none`.
unfoldable pub get_range : Str → ℕ → ℕ → Option Str
unfolding is_char_boundary
get_range s a b =
    if leb a b && is_char_boundary s a && is_char_boundary s b
    then some (take (b - a) (drop a s))
    else none

-- `s.trim_end_matches(c)` for a one-byte `c`.
unfoldable pub trim_end_byte : ℕ → Str → Str
trim_end_byte c [] = []
trim_end_byte c (a ∷ s) = elim (trim_end_byte c s) [
  | [] ↦ if a == c then [] else a ∷ []
  | b ∷ t ↦ a ∷ b ∷ t
]

-- `"*".repeat(n)` for a one-byte text is `replicate n`; `s.replace_range(a..b, with)`.
unfoldable pub replace_range : Str → ℕ → ℕ → Str → Option Str
unfolding is_char_boundary
replace_range s a b t =
    if leb a b && is_char_boundary s a && is_char_boundary s b
    then some (take a s ++ (t ++ drop b s))
    else none
