-- ===== src/Text/Pieces.antt =====
-- `str::splitn` at a one-byte separator, and `str::lines`.
pub mod Laws
pub mod Texts
use http_req.Prelude.{
  ℕ, zero, suc, true, false, none, some, List, [], ◌∷◌, ◌++◌, if◌then◌else◌, ◌==◌, take, drop,
}
use http_req.Text.{Str, find}

unfoldable pub splitn : ℕ → ℕ → Str → List Str
unfolding find
splitn zero sep s = []
splitn (suc zero) sep s = s ∷ []
splitn (suc (suc n)) sep s = elim (find s (sep ∷ [])) [
  | none ↦ s ∷ []
  | some i ↦ take i s ∷ splitn (suc n) sep (drop (suc i) s)
]

-- `s.split_once(sep)` as the two first items of `splitn(2, sep)`.
unfoldable pub strip_cr : Str → Str
strip_cr [] = []
strip_cr (c ∷ []) = if c == b'\r' then [] else c ∷ []
strip_cr (c ∷ d ∷ s) = c ∷ strip_cr (d ∷ s)

-- `line` is what has been read of the current line. The empty text after a last newline is no line.
unfoldable pub lines_from : Str → Str → List Str
unfolding strip_cr
lines_from [] [] = []
lines_from (c ∷ line) [] = (c ∷ line) ∷ []
lines_from line (c ∷ s) = elim (c == b'\n') [
  | true ↦ strip_cr line ∷ lines_from [] s
  | false ↦ lines_from (line ++ c ∷ []) s
]

unfoldable pub lines : Str → List Str
unfolding lines_from
lines = lines_from []
