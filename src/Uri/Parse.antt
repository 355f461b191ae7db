-- ===== src/Uri/Parse.antt =====
-- src/uri.rs: `Uri::try_from`.
use http_req.Prelude.{◌+◌, ◌-◌, ◌&&◌, Option, none, some, if◌then◌else◌, length}
use http_req.Text.{Str, str, str_eq, contains, get_range}
use http_req.Error.{uri_err, Error, Outcome, ok, ◌>>=◌, unwrap, ok_or, map_err}
use http_req.Error.From.{convert_parse}
use http_req.Uri.{RangeC, range_c, index, get_chunks, Authority, Uri}
use http_req.Uri.Auth.{try_from as authority_try_from}

-- `if let Some(a) = auth { authority = Some(Authority::try_from(&s[a])?) }`
unfoldable pub parse_authority : Str → Option RangeC → Outcome Error (Option Authority)
parse_authority s none = ok none
parse_authority s (some a) = do
  text ← unwrap (index s a)
  authority ← map_err convert_parse (authority_try_from text)
  ok (some authority)

-- The block that reads an authority behind `//`; it gives the authority and the rest.
unfoldable pub take_authority :
    Str → Option RangeC → Outcome Error (Option Authority × Option RangeC)
take_authority s none = ok (none, none)
take_authority s (some u) = do
  text ← unwrap (index s u)
  if contains text (str "//")
      then (do
        (auth, part) ← get_chunks s (some (range_c (u.start + 2) u.end)) (str "/")
        authority ← parse_authority s auth
        ok (authority, part))
      else ok (none, some u)

-- The block that takes the `/` in front of the rest back into it.
unfoldable pub take_back_slash : Str → Option RangeC → Outcome Error (Option RangeC)
take_back_slash s none = ok none
take_back_slash s (some u) = do
  before ← unwrap (get_range s (u.start - 1) u.start)
  ok (some (if str_eq before (str "/") then range_c (u.start - 1) u.end else u))

abbrev pub Parts : Type 0
Parts = Option RangeC × Option RangeC × Option RangeC

-- The path, the query and the fragment.
unfoldable pub split_path : Str → Option RangeC → Outcome Error Parts
split_path s none = ok (none, none, none)
split_path s (some u) = do
  text ← unwrap (index s u)
  if contains text (str "?") && contains text (str "#")
      then (do
        (path, rest) ← get_chunks s (some u) (str "?")
        (query, fragment) ← get_chunks s rest (str "#")
        ok (path, query, fragment))
      else if contains text (str "?")
      then (do (path, query) ← get_chunks s (some u) (str "?"); ok (path, query, none))
      else if contains text (str "#")
      then (do (path, fragment) ← get_chunks s (some u) (str "#"); ok (path, none, fragment))
      else ok (some u, none, none)

unfoldable pub try_from : Str → Outcome Error Uri
try_from s = do
  (scheme, uri_part) ← get_chunks s (some (range_c 0 (length s))) (str ":")
  scheme_range ← ok_or scheme (convert_parse uri_err)
  (authority, after_authority) ← take_authority s uri_part
  resource ← take_back_slash s after_authority
  (path, query, fragment) ← split_path s resource
  ok (record {
    inner = s;
    scheme = scheme_range;
    authority = authority;
    path = path;
    query = query;
    fragment = fragment;
  })
