-- ===== src/Uri/Relative.antt =====
-- src/uri.rs: `Uri::from_relative` and the joining of texts that it uses.
use http_req.Prelude.{ℕ, ◌+◌, Bool, Option, none, some, ◌++◌, if◌then◌else◌, length}
use http_req.Text.{Str, str, str_eq, find, rfind, get_range, trim_end_byte}
use http_req.Error.{Error, Outcome, ok, ◌>>=◌, unwrap}
use http_req.Uri.{RangeC, Uri}
use http_req.Uri.Access.{path, resource, unwrap_or}
use http_req.Uri.Parse.{try_from}

-- `if let Some(idx) = base_idx { output += &base[..idx] } else { output += base }`
unfoldable pub base_part : Str → Option ℕ → Option Str
base_part base none = some base
base_part base (some idx) = get_range base 0 idx

-- `if let Some(idx) = part_idx { output += &part[idx + 1..] } else { output += part }`
unfoldable pub part_part : Str → Option ℕ → Option Str
part_part part none = some part
part_part part (some idx) = get_range part (idx + 1) (length part)

unfoldable pub add_part : Str → Str → Str → Option ℕ → Outcome Error Str
add_part base part separator base_idx = do
  front ← unwrap (base_part base base_idx)
  back ← unwrap (part_part part (find part separator))
  ok (front ++ (separator ++ back))

unfoldable pub add_part_start : Str → Str → Str → Outcome Error Str
add_part_start base part separator = add_part base part separator (find base separator)

unfoldable pub add_part_end : Str → Str → Str → Outcome Error Str
add_part_end base part separator = add_part base part separator (rfind base separator)

-- `relative_uri.get(..1) == Some(c)`
unfoldable pub first_is : Str → Str → Bool
first_is relative c = str_eq (unwrap_or (get_range relative 0 1) (str "")) c

-- `match &relative_uri.get(..1)`
unfoldable pub join_resource : Str → Option (Option Str) → Str → Outcome Error Str
join_resource resource path relative =
    if first_is relative (str "#")
    then add_part_start resource relative (str "#")
    else if first_is relative (str "?")
    then (do p ← unwrap path; add_part_start (unwrap_or p (str "/")) relative (str "?"))
    else if first_is relative (str "/")
    then add_part_start resource relative (str "/")
    else add_part_end resource relative (str "/")

-- What stands in front of the resource in the new URI.
unfoldable pub base_of : Str → Option RangeC → Option Str
base_of inner none = some (trim_end_byte b'/' inner)
base_of inner (some p) = get_range inner 0 p.start

-- The text that `from_relative` writes into `relative_uri`.
unfoldable pub relative_text : Uri → Str → Outcome Error Str
relative_text u relative = do
  resource ← unwrap (resource u)
  joined ← join_resource resource (path u) relative
  front ← unwrap (base_of u.inner u.path)
  ok (front ++ joined)

unfoldable pub from_relative : Uri → Str → Outcome Error Uri
from_relative u relative = do text ← relative_text u relative; try_from text
