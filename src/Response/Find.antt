-- ===== src/Response/Find.antt =====
-- src/response.rs: `find_slice`.
pub mod Laws
use http_req.Prelude.{
  ℕ, zero, suc, ◌+◌, ◌-◌, Option, none, some, if◌then◌else◌, ltb, length, take, drop, [], ◌∷◌,
}
use http_req.Text.{Str, str_eq}

abbrev pub cr_lf_2 : Str
cr_lf_2 = b'\r' ∷ b'\n' ∷ b'\r' ∷ b'\n' ∷ []

-- The loop over `i`, of which `count` values are left.
unfoldable pub scan : ℕ → ℕ → Str → Str → Option ℕ
scan zero i bytes e = none
scan (suc count) i bytes e =
    let rest = scan count (suc i) bytes e in
    if str_eq (take (length e) (drop i bytes)) e then some (i + length e) else rest

unfoldable pub find_slice : Str → Str → Option ℕ
unfolding scan
find_slice bytes e =
    if ltb (length e) (length bytes) then scan (suc (length bytes - length e)) 0 bytes e else none
