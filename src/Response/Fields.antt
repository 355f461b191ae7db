-- ===== src/Response/Fields.antt =====
-- src/response.rs: `Headers`, a hash map from `unicase::Ascii` keys. `same` is the equality of keys
-- of the unicase crate. The entries stand in the order of insertion; what depends on the order in
-- which the map is visited takes that order as a parameter.
pub mod Laws
pub mod Text
pub mod Order
use http_req.Prelude.{
  ℕ, Bool, true, false, ◌&&◌, Option, none, some, List, [], ◌∷◌, ◌++◌, if◌then◌else◌, length,
}
use http_req.Text.{Str, str, find, contains, get_range}
use http_req.Text.White.{trim}
use http_req.Text.Pieces.{lines}
use http_req.Error.{ParseErr, headers_err, Outcome, ok, err, panic, ◌>>=◌, unwrap}
use http_req.Uri.{Uri}
use http_req.Uri.Access.{host_header, unwrap_or}

abbrev pub Headers : Type 0
Headers = List (Str × Str)

unfoldable pub new : Headers
new = []

-- `split_at(idx)`, and the parts that the closure of `from_str` makes of them.
unfoldable pub split_field : Str → ℕ → Outcome ParseErr (Str × Str)
split_field elem idx = do
  key ← unwrap (get_range elem 0 idx)
  value ← unwrap (get_range elem idx (length elem))
  rest ← unwrap (get_range value 1 (length value))
  ok (key, trim rest)

unfoldable pub parse_field : Str → Outcome ParseErr (Str × Str)
parse_field elem = do idx ← unwrap (find elem (str ":")); split_field elem idx

unfoldable pub all_fields : List Str → Bool
all_fields [] = true
all_fields (e ∷ es) = contains e (str ":") && all_fields es

-- `Display for Headers`, with the entries in the order in which the map is visited.
unfoldable pub display_fields : Headers → Str
display_fields [] = []
display_fields ((key, val) ∷ h) =
    str "  " ++ (key ++ (str ": " ++ (val ++ (b'\r' ∷ b'\n' ∷ [])))) ++ display_fields h

unfoldable pub display : (Headers → Headers) → Headers → Str
unfolding display_fields
display iter h = str "{" ++ ((b'\r' ∷ b'\n' ∷ []) ++ (display_fields (iter h) ++ str "}"))

module _ (same : Str → Str → Bool) where
  unfoldable pub get : Headers → Str → Option Str
  get [] k = none
  get ((key, val) ∷ h) k = if same key k then some val else get h k

  abbrev with_rest : Str × Str → Option Str × Headers → Option Str × Headers
  with_rest e (old, h) = (old, e ∷ h)

  -- `HashMap::insert`: the old value, and the map. A key that is there stays as it is.
  unfoldable pub insert : Headers → Str → Str → Option Str × Headers
  insert [] k v = (none, (k, v) ∷ [])
  insert ((key, val) ∷ h) k v =
      let rest = insert h k v in
      if same key k then (some val, (key, v) ∷ h) else with_rest (key, val) rest

  unfoldable pub insert_raw : Headers → Str → Str → Option Str × Headers
  insert_raw h k v = insert h k v

  -- `collect` into the map, one entry after the other.
  unfoldable pub collect_into : Headers → List Str → Outcome ParseErr Headers
  collect_into h [] = ok h
  collect_into h (elem ∷ es) = elim (parse_field elem) [
    | ok (k, v) ↦ collect_into (insert h k v).1 es
    | err e ↦ err e
    | panic ↦ panic
  ]

  unfoldable pub from_str : Str → Outcome ParseErr Headers
  from_str s =
      let headers = trim s in
      if all_fields (lines headers) then collect_into [] (lines headers) else err headers_err

  -- `uri.host_header().unwrap_or_default()`; `none` is a panic of `host_header`.
  unfoldable pub default_http : Uri → Option Headers
  default_http u = elim (host_header u) [
    | none ↦ none
    | some host ↦
        let headers = (insert [] (str "Host") (unwrap_or host [])).1 in
        some (insert headers (str "User-Agent") (str "http_req/0.13.0")).1
  ]
