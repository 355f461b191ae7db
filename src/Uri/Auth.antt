-- ===== src/Uri/Auth.antt =====
-- src/uri.rs: `Authority::try_from` and the accessors of `Authority`.
pub mod Valid
pub mod Written
pub mod Bracketed
pub mod Whole
pub mod Refused
use http_req.Prelude.{
  ℕ, Bool, true, false, ◌&&◌, Option, none, some, if◌then◌else◌, length, replicate, ◌-◌,
}
use http_req.Text.{Str, str, contains, replace_range}
use http_req.Text.Number.{Parsed, number, not_number, parse_uint, u16_bound}
use http_req.Error.{ParseErr, uri_err, Outcome, ok, err, ◌>>=◌, unwrap, ok_or}
use http_req.Uri.{RangeC, range_c, index, get_chunks, Authority}

-- The part in front of `@`, split at `:`, and the part behind it.
unfoldable pub split_info : Str → Outcome ParseErr (Option RangeC × Option RangeC × Option RangeC)
split_info s =
    if contains s (str "@")
    then (do
      (info, part) ← get_chunks s (some (range_c 0 (length s))) (str "@")
      (username, password) ← get_chunks s info (str ":")
      ok (username, password, part))
    else ok (none, none, some (range_c 0 (length s)))

unfoldable pub split_by : Str → Str
split_by s = if contains s (str "[") && contains s (str "]") then str "]:" else str ":"

abbrev pub parsed_ok : Parsed → Bool
parsed_ok (number n) = true
parsed_ok (not_number k) = false

-- `if let Some(p) = port { if s[p].parse::<u16>().is_err() { return Err(..) } }`
unfoldable pub check_port : Str → Option RangeC → Outcome ParseErr (Unit {0})
check_port s none = ok tt
check_port s (some p) = do
  text ← unwrap (index s p)
  if parsed_ok (parse_uint u16_bound text) then ok tt else err uri_err

unfoldable pub try_from : Str → Outcome ParseErr Authority
try_from s = do
  (username, password, uri_part) ← split_info s
  (host, port) ← get_chunks s uri_part (split_by s)
  host_range ← ok_or host uri_err
  _ ← check_port s port
  ok (record {
    inner = s;
    username = username;
    password = password;
    host = host_range;
    port = port;
  })

-- `range.map(|r| &inner[r])`: the outer `none` is a panic.
unfoldable pub text_of : Str → Option RangeC → Option (Option Str)
text_of s none = some none
text_of s (some r) = elim (index s r) [ none ↦ none | some t ↦ some (some t) ]

unfoldable pub username : Authority → Option (Option Str)
username a = text_of a.inner a.username

unfoldable pub password : Authority → Option (Option Str)
password a = text_of a.inner a.password

-- `match (&self.username, &self.password)`
unfoldable pub user_info_in : Str → Option RangeC → Option RangeC → Option (Option Str)
user_info_in s (some u) (some p) = text_of s (some (range_c u.start p.end))
user_info_in s (some u) none = text_of s (some u)
user_info_in s none p = some none

unfoldable pub user_info : Authority → Option (Option Str)
user_info a = user_info_in a.inner a.username a.password

unfoldable pub host : Authority → Option Str
host a = index a.inner a.host

-- `parse().unwrap()` of a port's text.
abbrev pub unwrap_port : Option Str → Option (Option ℕ)
unwrap_port none = none
unwrap_port (some t) = elim (parse_uint u16_bound t) [
  | number n ↦ some (some n)
  | not_number k ↦ none
]

unfoldable pub port_in : Str → Option RangeC → Option (Option ℕ)
port_in s none = some none
port_in s (some p) = unwrap_port (index s p)

unfoldable pub port : Authority → Option (Option ℕ)
port a = port_in a.inner a.port

-- `Display for Authority`: the password becomes asterisks.
unfoldable pub hide_in : Str → Option RangeC → Option Str
hide_in s none = some s
hide_in s (some p) = replace_range s p.start p.end (replicate (p.end - p.start) b'*')

unfoldable pub display : Authority → Option Str
display a = hide_in a.inner a.password
