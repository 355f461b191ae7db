-- ===== src/Request/Raw.antt =====
-- src/request.rs: `RequestMessage`. `same` is the equality of header keys of the unicase crate,
-- `encode` the base64 crate's, `iter` the order in which the hash map is visited.
use http_req.Prelude.{Bool, Option, none, some, [], ◌∷◌, ◌++◌, length}
use http_req.Text.{Str, str}
use http_req.Text.Number.{decimal}
use http_req.Method.{Method, get, as_str, HttpVersion, http11, version_str}
use http_req.Uri.{Uri}
use http_req.Uri.Access.{resource}
use http_req.Response.Fields as Fields
use http_req.Response.Fields.{Headers}
use http_req.Request.Auth as Auth
use http_req.Request.Auth.{Authentication}

abbrev pub cr_lf : Str
cr_lf = b'\r' ∷ b'\n' ∷ []

pub record RequestMessage : Type 0 where
  pub uri : Uri
  pub method : Method
  pub version : HttpVersion
  pub headers : Headers
  pub body : Option Str

unfoldable pub set_method : RequestMessage → Method → RequestMessage
set_method m method = record m { method = method }

unfoldable pub set_version : RequestMessage → HttpVersion → RequestMessage
set_version m version = record m { version = version }

unfoldable pub set_headers : RequestMessage → Headers → RequestMessage
set_headers m headers = record m { headers = headers }

module _ (same : Str → Str → Bool) where
  -- `none` is a panic of `host_header`.
  unfoldable pub new : Uri → Option RequestMessage
  new u = elim (Fields.default_http same u) [
    | none ↦ none
    | some h ↦ some (record { uri = u; method = get; version = http11; headers = h; body = none })
  ]

  unfoldable pub header : RequestMessage → Str → Str → RequestMessage
  header m key val = record m { headers = (Fields.insert same m.headers key val).1 }

  abbrev add_raw : RequestMessage → Str × Str → RequestMessage
  add_raw m (key, val) = record m { headers = (Fields.insert_raw same m.headers key val).1 }

  unfoldable pub authentication : (Str → Str) → RequestMessage → Authentication → RequestMessage
  authentication encode m auth = add_raw m (Auth.header encode auth)

  unfoldable pub body : RequestMessage → Str → RequestMessage
  body m b = header (record m { body = some b }) (str "Content-Length") (decimal (length b))

-- The loop over the headers.
unfoldable pub add_headers : Str → Headers → Str
add_headers msg [] = msg
add_headers msg ((key, val) ∷ h) = add_headers (msg ++ (key ++ (str ": " ++ (val ++ cr_lf)))) h

abbrev pub add_body : Str → Option Str → Str
add_body msg none = msg
add_body msg (some b) = msg ++ b

abbrev pub request_line : RequestMessage → Str → Str
request_line m resource =
    as_str m.method ++ (str " " ++ (resource ++ (str " " ++ (version_str m.version ++ cr_lf))))

-- `none` is a panic of `resource`.
unfoldable pub parse : (Headers → Headers) → RequestMessage → Option Str
parse iter m = elim (resource m.uri) [
  | none ↦ none
  | some r ↦ some (add_body (add_headers (request_line m r) (iter m.headers) ++ cr_lf) m.body)
]
