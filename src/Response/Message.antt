-- ===== src/Response/Message.antt =====
-- src/response.rs: `Response`.
pub mod Laws
pub mod Total
use http_req.Prelude.{
  ℕ, Bool, true, false, ◌&&◌, not, Option, none, some, List, [], ◌∷◌, if◌then◌else◌, ltb, length,
  take, drop,
}
use http_req.Text.{Str, str, contains}
use http_req.Text.Number.{Parsed, number, not_number, parse_uint, usize_bound}
use http_req.Text.Pieces.{splitn}
use http_req.Text.Utf8.{utf8_error}
use http_req.Error.{
  Utf8Error, ParseErr, utf8, status_err, headers_err, empty, Error, parse, io, IoError, Outcome, ok,
  err, panic, ◌>>=◌, map_err, ok_or,
}
use http_req.Error.From.{convert_io, convert_parse, convert_utf8}
use http_req.Method.{Method, is_head}
use http_req.Uri.Access.{unwrap_or}
use http_req.Response.Fields as Fields
use http_req.Response.Fields.{Headers}
use http_req.Response.Code.{StatusCode}
use http_req.Response.StatusLine as StatusLine
use http_req.Response.StatusLine.{Status, next}
use http_req.Response.Find.{cr_lf_2, find_slice}

pub record Response : Type 0 where
  pub status : Status
  pub headers : Headers

-- `str::from_utf8(head)?`
abbrev checked : Str → Option ℕ → Outcome Error Str
checked s none = ok s
checked s (some n) = err (convert_utf8 (record { valid_up_to = n }))

unfoldable pub status_code : Response → StatusCode
status_code r = r.status.code

unfoldable pub version : Response → Str
version r = r.status.version

unfoldable pub reason : Response → Str
reason r = r.status.reason

module _ (same : Str → Str → Bool) where
  unfoldable pub from_head : Str → Outcome Error Response
  from_head head = do
    text ← checked head (utf8_error head)
    let (first, rest) = next (splitn 2 b'\n' text) in
        do
          line ← ok_or first (convert_parse status_err)
          status ← map_err convert_parse (StatusLine.from_str line)
          fields ← ok_or (next rest).0 (convert_parse headers_err)
          headers ← map_err convert_parse (Fields.from_str same fields)
          ok (record { status = status; headers = headers })

  -- A writer, by what `write_all` does with it.
  module _ {W : Type 0} (write_all : Str → W → Outcome IoError Unit × W) where
    abbrev pub written : Response → Outcome IoError Unit × W → Outcome Error Response × W
    written r (ok tt, w) = (ok r, w)
    written r (err e, w) = (err (convert_io e), w)
    written r (panic, w) = (panic, w)

    abbrev pub with_head : Outcome Error Response → Str → W → Outcome Error Response × W
    with_head (ok r) body w = written r (write_all body w)
    with_head (err e) body w = (err e, w)
    with_head panic body w = (panic, w)

    unfoldable pub try_from : Str → W → Outcome Error Response × W
    try_from [] w = (err (parse empty), w)
    try_from (b ∷ res) w =
        let pos = unwrap_or (find_slice (b ∷ res) cr_lf_2) (length (b ∷ res)) in
        with_head (from_head (take pos (b ∷ res))) (drop pos (b ∷ res)) w

  -- `.and_then(|len| len.parse().ok())`
  abbrev parsed_len : Parsed → Option ℕ
  parsed_len (number n) = some n
  parsed_len (not_number e) = none

  unfoldable pub content_len : Response → Option ℕ
  content_len r = elim (Fields.get same r.headers (str "Content-Length")) [
    | none ↦ none
    | some len ↦ parsed_len (parse_uint usize_bound len)
  ]

  unfoldable pub is_chunked : Response → Bool
  is_chunked r = elim (Fields.get same r.headers (str "Transfer-Encoding")) [
    | none ↦ false
    | some encodings ↦ contains encodings (str "chunked")
  ]

  -- The array `params`.
  unfoldable pub basic_info : Response → Method → Str × Str
  basic_info r method = (
    if is_chunked r then str "chunked" else [],
    if ltb 0 (unwrap_or (content_len r) 1) && not (is_head method) then str "non-empty" else [],
  )
