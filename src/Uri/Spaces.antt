-- ===== src/Uri/Spaces.antt =====
-- src/uri.rs: `remove_spaces`.
use http_req.Prelude.{ℕ, zero, suc, [], ◌∷◌, ◌≡◌, refl}
use http_req.Text.{Str, str}
use http_req.Text.White.{white_front, is_ascii_white}

-- `retain(|c| !c.is_whitespace())`; the number is what is left to drop of one character.
unfoldable pub remove_from : ℕ → Str → Str
remove_from k [] = []
remove_from (suc k) (c ∷ s) = remove_from k s
remove_from zero (c ∷ s) = elim (white_front (c ∷ s)) [
  | zero ↦ c ∷ remove_from zero s
  | suc k ↦ remove_from k s
]

unfoldable pub remove_spaces : Str → Str
unfolding remove_from
remove_spaces text = remove_from 0 text

remove_spaces_test : remove_spaces (str " a \tb\r\nc ") ≡ str "abc"
unfolding remove_spaces white_front is_ascii_white
remove_spaces_test = refl
