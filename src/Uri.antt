-- ===== src/Uri.antt =====
-- src/uri.rs: a URI is its text with the ranges of its parts.
pub mod Auth
pub mod Parse
pub mod Access
pub mod Chunks
pub mod Valid
pub mod Panics
pub mod Fine
pub mod Refused
pub mod Total
pub mod Hidden
pub mod Relative
pub mod Joined
pub mod Spans
pub mod Written
pub mod Parsed
pub mod Spaces
mod Tests
use http_req.Prelude.{ℕ, ◌+◌, ◌-◌, Option, none, some, [], ◌∷◌, if◌then◌else◌, ◌==◌, length}
use http_req.Text.{Str, get_range, find}
use http_req.Error.{Outcome, ok, ◌>>=◌, unwrap}

abbrev pub http_port : ℕ
http_port = 80

abbrev pub https_port : ℕ
https_port = 443

pub record RangeC : Type 0 where
  pub start : ℕ
  pub end : ℕ

abbrev pub range_c : ℕ → ℕ → RangeC
range_c a b = record { start = a; end = b }

-- `&s[range]`; `none` is a panic.
unfoldable pub index : Str → RangeC → Option Str
index s r = get_range s r.start r.end

-- `.filter(|r| r.start != r.end)`
abbrev pub non_empty : RangeC → Option RangeC
non_empty r = if r.start == r.end then none else some r

-- The two arms of `match s[range].find(separator)`.
unfoldable pub chunks_at : RangeC → ℕ → Str → Option ℕ → Option RangeC × Option RangeC
chunks_at r len text (some i) =
    let mid = r.start + i + len in
    (non_empty (range_c r.start (mid - 1)), non_empty (range_c mid r.end))
chunks_at r len [] none = (none, none)
chunks_at r len (c ∷ text) none = (some r, none)

unfoldable pub get_chunks :
    {E : Type 0} → Str → Option RangeC → Str → Outcome E (Option RangeC × Option RangeC)
get_chunks s none separator = ok (none, none)
get_chunks s (some r) separator = do
  text ← unwrap (index s r)
  ok (chunks_at r (length separator) text (find text separator))

-- `Authority`; its accessors and its parser are in the module `Auth`.
pub record Authority : Type 0 where
  pub inner : Str
  pub username : Option RangeC
  pub password : Option RangeC
  pub host : RangeC
  pub port : Option RangeC

pub record Uri : Type 0 where
  pub inner : Str
  pub scheme : RangeC
  pub authority : Option Authority
  pub path : Option RangeC
  pub query : Option RangeC
  pub fragment : Option RangeC
