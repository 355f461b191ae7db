-- ===== src/Uri/Access.antt =====
-- src/uri.rs: the accessors of `Uri`. The outer `none` of a result is a panic.
use http_req.Prelude.{
  ℕ, Bool, ◌||◌, not, Option, none, some, ◌++◌, if◌then◌else◌, ◌==◌, length, ◌+◌,
}
use http_req.Text.{Str, str, str_eq, starts_with, contains, get_range, replace_range}
use http_req.Text.Number.{decimal}
use http_req.Uri.{http_port, https_port, RangeC, index, Authority, Uri}
use http_req.Uri.Auth
use http_req.Uri.Auth.{text_of}

infixl 5 ◌>>=◌
abbrev pub ◌>>=◌ : {A B : Type 0} → Option A → (A → Option B) → Option B
none >>= f = none
some a >>= f = f a

unfoldable pub get_ref : Uri → Str
get_ref u = u.inner

unfoldable pub scheme : Uri → Option Str
scheme u = index u.inner u.scheme

-- `authority.as_ref().and_then(|a| f(a))` and `.map(|a| f(a))`.
abbrev pub of_authority :
    {A : Type 0} → (Authority → Option (Option A)) → Option Authority → Option (Option A)
of_authority f none = some none
of_authority f (some a) = f a

abbrev pub map_panic : {A : Type 0} → Option A → Option (Option A)
map_panic none = none
map_panic (some a) = some (some a)

unfoldable pub user_info : Uri → Option (Option Str)
user_info u = of_authority Auth.user_info u.authority

unfoldable pub host : Uri → Option (Option Str)
host u = of_authority (λ a. map_panic (Auth.host a)) u.authority

unfoldable pub port : Uri → Option (Option ℕ)
port u = of_authority Auth.port u.authority

unfoldable pub default_port : Str → ℕ
default_port s = if str_eq s (str "https") then https_port else http_port

abbrev pub unwrap_or : {A : Type 0} → Option A → A → A
unwrap_or none d = d
unwrap_or (some a) d = a

unfoldable pub corr_port : Uri → Option ℕ
corr_port u = do s ← scheme u; p ← port u; some (unwrap_or p (default_port s))

-- `match self.corr_port()` of `host_header`.
unfoldable pub with_port : Str → ℕ → Str
with_port h p = if p == http_port || p == https_port then h else h ++ (str ":" ++ decimal p)

abbrev pub host_header_of : Option Str → Option ℕ → Option (Option Str)
host_header_of none p = some none
host_header_of (some h) none = none
host_header_of (some h) (some p) = some (some (with_port h p))

unfoldable pub host_header : Uri → Option (Option Str)
host_header u = do h ← host u; host_header_of h (corr_port u)

unfoldable pub path : Uri → Option (Option Str)
path u = text_of u.inner u.path

unfoldable pub query : Uri → Option (Option Str)
query u = text_of u.inner u.query

unfoldable pub fragment : Uri → Option (Option Str)
fragment u = text_of u.inner u.fragment

-- `match self.path` of `resource`.
unfoldable pub resource_in : Str → Option RangeC → Option Str
resource_in s none = some (str "/")
resource_in s (some p) = get_range s p.start (length s)

unfoldable pub resource : Uri → Option Str
resource u = resource_in u.inner u.path

unfoldable pub is_relative : Str → Bool
is_relative raw_uri =
    starts_with raw_uri (str "/")
    || starts_with raw_uri (str "?")
    || starts_with raw_uri (str "#")
    || not (contains raw_uri (str ":"))

-- `Display for Uri`: the authority is written over its range, with the password hidden.
unfoldable pub display_in : Str → RangeC → Option Authority → Option Str
display_in s scheme none = some s
display_in s scheme (some a) = do
  auth ← Auth.display a
  replace_range s (scheme.end + 3) (scheme.end + 3 + length auth) auth

unfoldable pub display : Uri → Option Str
display u = display_in u.inner u.scheme u.authority
