-- ===== src/Response/StatusLine.antt =====
-- src/response.rs: `Status`.
pub mod Laws
use http_req.Prelude.{Option, none, some, List, [], ◌∷◌}
use http_req.Text.{Str, str}
use http_req.Text.White.{trim}
use http_req.Text.Pieces.{splitn}
use http_req.Error.{ParseErr, status_err, Outcome, ok, err, ◌>>=◌, ok_or}
use http_req.Uri.Access.{unwrap_or}
use http_req.Response.Code as Code
use http_req.Response.Code.{StatusCode}

pub record Status : Type 0 where
  pub version : Str
  pub code : StatusCode
  pub reason : Str

unfoldable pub new : Str → StatusCode → Str → Status
new version code reason = record { version = version; code = code; reason = reason }

-- `next()` of the pieces: the first, and the others.
abbrev pub next : List Str → Option Str × List Str
next [] = (none, [])
next (p ∷ ps) = (some p, ps)

-- `match status_line.next()`
abbrev reason_or : Option Str → StatusCode → Str
reason_or (some r) code = r
reason_or none code = unwrap_or (Code.reason code) (str "Unknown")

unfoldable pub from_str : Str → Outcome ParseErr Status
from_str status_line =
    let (first, rest) = next (splitn 3 b' ' (trim status_line)) in
    let (second, rest') = next rest in
    do
      version ← ok_or first status_err
      text ← ok_or second status_err
      code ← Code.from_str text
      ok (new version code (reason_or (next rest').0 code))
