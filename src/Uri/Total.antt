-- ===== src/Uri/Total.antt =====
-- No accessor of a valid URI panics, and what `Display` writes.
use http_req.Prelude.{ℕ, ◌+◌, ◌≤◌, ◌≡◌, refl, true, false, Option, none, some, arith, length}
use http_req.Text.{Str, str, get_range}
use http_req.Text.Number.{Parsed, number, not_number, parse_uint, u16_bound}
use http_req.Text.Slices.{boundary-le-length}
use http_req.Uri.{RangeC, range_c, index, Authority, Uri}
use http_req.Uri.Access
use http_req.Uri.Auth
use http_req.Uri.Auth.{text_of, parsed_ok, unwrap_port}
use http_req.Uri.Auth.Valid as AuthValid
use http_req.Uri.Auth.Valid.{whole-IsRange}
use http_req.Uri.Chunks.{IsRange, Each, text_at, index-IsRange}
use http_req.Uri.Valid.{IsValid, AuthAt}

module _ {A : Type 0} where
  -- A result that is no panic.
  abbrev pub Returns : Option A → Type 0
  Returns o = (a : A) × (o ≡ some a)

text_of-Returns : (s : Str) (o : Option RangeC) → Each (IsRange s) o → Returns (text_of s o)
unfolding text_of
text_of-Returns s none h = (none, refl)
text_of-Returns s (some r) h = (some (text_at s r), rw (index-IsRange s r h, text_of) refl)

index-Returns : (s : Str) (r : RangeC) → IsRange s r → Returns (index s r)
index-Returns s r h = (text_at s r, index-IsRange s r h)

unwrap_port-Returns :
    (t : Str) → parsed_ok (parse_uint u16_bound t) ≡ true → Returns (unwrap_port (some t))
unwrap_port-Returns t h = go (parse_uint u16_bound t) refl
  where
    go : (q : Parsed) → parse_uint u16_bound t ≡ q → Returns (unwrap_port (some t))
    go (number n) e = (some n, rw (e, unwrap_port) refl)
    go (not_number k) e = absurd (let f : false ≡ true = rw e at h in cc)

port_in-Returns :
    (s : Str) (o : Option RangeC)
    → Each (λ p. IsRange s p × (parsed_ok (parse_uint u16_bound (text_at s p)) ≡ true)) o
    → Returns (Auth.port_in s o)
unfolding Auth.port_in
port_in-Returns s none h = (none, refl)
port_in-Returns s (some r) h = rw (index-IsRange s r h.0) (unwrap_port-Returns (text_at s r) h.1)

user_info_in-Returns :
    (s : Str) (u p : Option RangeC)
    → Each (IsRange s) u
    → Each (IsRange s) p
    → Each (λ x. Each (λ y. x.start ≤ y.end) p) u
    → Returns (Auth.user_info_in s u p)
unfolding Auth.user_info_in
user_info_in-Returns s none p h k l = (none, refl)
user_info_in-Returns s (some u) none h k l = text_of-Returns s (some u) h
user_info_in-Returns s (some u) (some p) h k l =
    text_of-Returns s (some (range_c u.start p.end))
      (record { ordered = l; start_at = h.start_at; end_at = k.end_at })

-- The accessors of an authority.
record Answers (a : Authority) : Type 0 where
  username : Returns (Auth.username a)
  password : Returns (Auth.password a)
  user_info : Returns (Auth.user_info a)
  host : Returns (Auth.host a)
  port : Returns (Auth.port a)

authority-Answers : (a : Authority) → AuthValid.IsValid a → Answers a
unfolding Auth.username Auth.password Auth.user_info Auth.host Auth.port
authority-Answers a v = record {
  username = text_of-Returns a.inner a.username v.username;
  password = text_of-Returns a.inner a.password v.password;
  user_info = user_info_in-Returns a.inner a.username a.password v.username v.password v.info;
  host = index-Returns a.inner a.host v.host;
  port = port_in-Returns a.inner a.port v.port;
}

resource_in-Returns :
    (s : Str) (o : Option RangeC) → Each (IsRange s) o → Returns (Access.resource_in s o)
unfolding Access.resource_in get_range index
resource_in-Returns s none h = (str "/", refl)
resource_in-Returns s (some p) h = index-Returns s (range_c p.start (length s)) (record {
  ordered = omega (arith, boundary-le-length s p.start h.start_at);
  start_at = h.start_at;
  end_at = (whole-IsRange s).end_at;
})

-- The accessors of a URI.
pub record AllReturn (u : Uri) : Type 0 where
  pub scheme : Returns (Access.scheme u)
  pub user_info : Returns (Access.user_info u)
  pub host : Returns (Access.host u)
  pub port : Returns (Access.port u)
  pub corr_port : Returns (Access.corr_port u)
  pub host_header : Returns (Access.host_header u)
  pub path : Returns (Access.path u)
  pub query : Returns (Access.query u)
  pub fragment : Returns (Access.fragment u)
  pub resource : Returns (Access.resource u)

module _ (s : Str) (st : ℕ) where
  of_authority-Returns :
      {A : Type 0} (f : Authority → Option (Option A)) (o : Option Authority)
      → AuthAt s st o
      → ((a : Authority) → Answers a → Returns (f a))
      → Returns (Access.of_authority f o)
  of_authority-Returns f none h k = (none, refl)
  of_authority-Returns f (some a) h k = k a (authority-Answers a h.valid)

map_panic-Returns : {A : Type 0} (o : Option A) → Returns o → Returns (Access.map_panic o)
map_panic-Returns o (a, e) = (some a, rw e refl)

corr_port-Returns :
    (u : Uri) → Returns (Access.scheme u) → Returns (Access.port u) → Returns (Access.corr_port u)
unfolding Access.corr_port
corr_port-Returns u (t, e) (p, f) = (Access.unwrap_or p (Access.default_port t), rw (e, f) refl)

host_header-Returns :
    (u : Uri)
    → Returns (Access.host u)
    → Returns (Access.corr_port u)
    → Returns (Access.host_header u)
unfolding Access.host_header
host_header-Returns u (none, e) (p, f) = (none, rw e refl)
host_header-Returns u (some h, e) (p, f) = (some (Access.with_port h p), rw (e, f) refl)

-- On a valid URI no accessor panics.
pub IsValid-AllReturn : (u : Uri) → IsValid u → AllReturn u
unfolding Access.scheme Access.user_info Access.host Access.port Access.path Access.query
    Access.fragment Access.resource
IsValid-AllReturn u v =
    let scheme : Returns (Access.scheme u) = index-Returns u.inner u.scheme v.scheme in
    let host : Returns (Access.host u) =
      of_authority-Returns u.inner (u.scheme.end + 3) _ u.authority v.authority
        (λ a k. map_panic-Returns (Auth.host a) k.host) in
    let port : Returns (Access.port u) =
      of_authority-Returns u.inner (u.scheme.end + 3) Auth.port u.authority v.authority
        (λ a k. k.port) in
    let corr_port : Returns (Access.corr_port u) = corr_port-Returns u scheme port in
    record {
      scheme = scheme;
      user_info =
          of_authority-Returns u.inner (u.scheme.end + 3) Auth.user_info u.authority v.authority
            (λ a k. k.user_info);
      host = host;
      port = port;
      corr_port = corr_port;
      host_header = host_header-Returns u host corr_port;
      path = text_of-Returns u.inner u.path v.path;
      query = text_of-Returns u.inner u.query v.query;
      fragment = text_of-Returns u.inner u.fragment v.fragment;
      resource = resource_in-Returns u.inner u.path v.path;
    }
