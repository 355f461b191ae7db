-- ===== src/Uri/Auth/Written.antt =====
-- `Authority::try_from` on an authority that is written from its parts.
use http_req.Prelude.{
  ℕ, ◌<◌, ◌≡◌, ◌≢◌, refl, ap, ◌∙◌, subst, true, false, Option, none, some, [], ◌∷◌, ◌++◌, length,
  arith, append_assoc, append-nil, length-append, ne-nil,
}
use http_req.Text.{Str, str, starts_char, contains}
use http_req.Text.Number.{number, decimal, parse_uint, u16_bound}
use http_req.Text.Number.Laws.{
  parse_uint-decimal, AreDigits, decimal-AreDigits, decimal-ne-nil, AreDigits-starts_char,
}
use http_req.Text.Search.{Lacks, Lacks-append, contains-append, contains-eq-false}
use http_req.Error.{ParseErr, ok}
use http_req.Uri.{RangeC, range_c, index, get_chunks, Authority}
use http_req.Uri.Auth.{split_info, check_port, username, password, host, port, port_in, unwrap_port}
use http_req.Uri.Spans.{
  Span, Span-whole, starts_char-append, index-Span, cut_lem, whole_lem, StandsAt,
}

-- A user name, with a password or without.
abbrev pub Info : Type 0
Info = Option (Str × Option Str)

abbrev pub info_text : Info → Str
info_text none = []
info_text (some (u, none)) = u ++ b'@' ∷ []
info_text (some (u, some p)) = u ++ (b':' ∷ (p ++ b'@' ∷ []))

abbrev pub port_text : Option ℕ → Str
port_text none = []
port_text (some n) = b':' ∷ decimal n

-- A name, or a text in brackets, as an IPv6 address stands in.
pub data Host : Type 0 where
  named : Str → Host
  bracketed : Str → Host

abbrev pub host_text : Host → Str
host_text (named h) = h
host_text (bracketed x) = b'[' ∷ (x ++ b']' ∷ [])

abbrev pub authority_text : Info → Host → Option ℕ → Str
authority_text i h n = info_text i ++ (host_text h ++ port_text n)

-- A part without the characters that the parser looks for.
pub record IsName (x : Str) : Type 0 where
  pub some_name : x ≢ []
  pub name_char : starts_char x ≡ true
  pub no_at : Lacks b'@' x
  pub no_colon : Lacks b':' x
  pub no_bracket : Lacks b'[' x

abbrev pub IsInfo : Info → Type 0
IsInfo none = Unit
IsInfo (some (u, none)) = IsName u
IsInfo (some (u, some p)) = IsName u × IsName p

abbrev pub IsHost : Host → Type 0
IsHost (named h) = IsName h
IsHost (bracketed x) = Lacks b'@' x × Lacks b']' x

abbrev pub IsPort : Option ℕ → Type 0
IsPort none = Unit
IsPort (some n) = n < u16_bound

abbrev pub user_of : Info → Option Str
user_of none = none
user_of (some (u, p)) = some u

abbrev pub password_of : Info → Option Str
password_of none = none
password_of (some (u, p)) = p

-- What the accessors of the authority give.
pub record AuthorityIs (i : Info) (h : Host) (n : Option ℕ) (a : Authority) : Type 0 where
  pub username_is : username a ≡ some (user_of i)
  pub password_is : password a ≡ some (password_of i)
  pub host_is : host a ≡ some (host_text h)
  pub port_is : port a ≡ some n

module _ (s : Str) where
  abbrev pub Infos : Info → Str → Type 0
  Infos i behind =
      (uo po : Option RangeC) × (hr : RangeC) × (split_info s ≡ ok (uo, po, some hr))
      × StandsAt s (user_of i) uo
      × StandsAt s (password_of i) po
      × Span s hr behind

  abbrev whole : RangeC
  whole = range_c 0 (length s)

  at_lem :
      (info behind : Str)
      → Lacks b'@' info
      → info ≢ []
      → starts_char info ≡ true
      → behind ≢ []
      → starts_char behind ≡ true
      → s ≡ info ++ (b'@' ∷ behind)
      → (ir hr : RangeC) × (contains s (str "@") ≡ true)
        × (get_chunks {E = ParseErr} s (some whole) (str "@") ≡ ok (some ir, some hr))
        × Span s ir info
        × Span s hr behind
  at_lem info behind l ne c ne' c' e =
      let char : starts_char s ≡ true =
        ap starts_char e ∙ starts_char-append info (b'@' ∷ behind) c refl in
      let p : Span s whole (info ++ (b'@' ∷ behind)) = subst (Span s whole) e (Span-whole s char) in
      let (ir, hr, z, k) = cut_lem {E = ParseErr} b'@' info behind l ne ne' refl c' p in
      (
        ir,
        hr,
        ap (λ w. contains w (str "@")) e ∙ contains-append b'@' info behind,
        z,
        k.front,
        k.back,
      )

  -- The part in front of the `@`.
  pub info_lem :
      (i : Info) (behind : Str)
      → IsInfo i
      → Lacks b'@' behind
      → behind ≢ []
      → starts_char behind ≡ true
      → s ≡ info_text i ++ behind
      → Infos i behind
  unfolding split_info
  info_lem none behind k l ne c e =
      let no : contains s (str "@") ≡ false =
        ap (λ w. contains w (str "@")) e ∙ contains-eq-false b'@' behind l in
      let p : Span s whole behind = subst (Span s whole) e (Span-whole s (ap starts_char e ∙ c)) in
      (none, none, whole, rw no refl, refl, refl, p)
  info_lem (some (u, none)) behind k l ne c e =
      let (ir, hr, has, z, front, back) =
        at_lem u behind k.no_at k.some_name k.name_char ne c
          (e ∙ append_assoc u (b'@' ∷ []) behind) in
      (
        some ir,
        none,
        hr,
        rw has (rw z (rw (whole_lem {E = ParseErr} b':' u k.no_colon k.some_name front) refl)),
        (ir, refl, front),
        refl,
        back,
      )
  info_lem (some (u, some p)) behind (k, k') l ne c e =
      let info : Str = u ++ (b':' ∷ p) in
      let cut : info_text (some (u, some p)) ++ behind ≡ info ++ (b'@' ∷ behind) =
        simp append_assoc in
      let (ir, hr, has, z, front, back) =
        at_lem info behind (Lacks-append b'@' u (b':' ∷ p) k.no_at (refl, k'.no_at))
          (ne-nil info (omega (arith, length-append u (b':' ∷ p))))
          (starts_char-append u (b':' ∷ p) k.name_char refl) ne c (e ∙ cut) in
      let (ur, pr, z', k'') =
        cut_lem {E = ParseErr} b':' u p k.no_colon k.some_name k'.some_name refl k'.name_char
          front in
      (
        some ur,
        some pr,
        hr,
        rw has (rw z (rw z' refl)),
        (ur, refl, k''.front),
        (pr, refl, k''.back),
        back,
      )

  -- The host and the port, behind the separator.
  abbrev pub Ports : Str → RangeC → Str → Option ℕ → Type 0
  Ports sep hr h n =
      (hr' : RangeC) × (po : Option RangeC) × (get_chunks {E = ParseErr} s (some hr) sep
        ≡ ok (some hr', po))
      × Span s hr' h
      × (check_port s po ≡ ok tt)
      × (port_in s po ≡ some n)

  pub digits_lem :
      (r : RangeC) (n : ℕ)
      → n < u16_bound
      → Span s r (decimal n)
      → (check_port s (some r) ≡ ok tt) × (port_in s (some r) ≡ some (some n))
  unfolding check_port port_in
  digits_lem r n l p =
      let read : parse_uint u16_bound (decimal n) ≡ number n = parse_uint-decimal u16_bound n l in
      let text : index s r ≡ some (decimal n) = index-Span s r (decimal n) p in
      (rw text (rw read refl), rw text (rw (read, unwrap_port) refl))

  pub port_lem :
      (hr : RangeC) (h : Str) (n : Option ℕ)
      → IsName h
      → IsPort n
      → Span s hr (h ++ port_text n)
      → Ports (str ":") hr h n
  unfolding check_port port_in
  port_lem hr h none k t p =
      let q : Span s hr h = subst (Span s hr) (append-nil h) p in
      (hr, none, whole_lem b':' h k.no_colon k.some_name q, q, refl, refl)
  port_lem hr h (some n) k l p =
      let digits : AreDigits (decimal n) = decimal-AreDigits n in
      let (hr', pr, z, c) =
        cut_lem {E = ParseErr} b':' h (decimal n) k.no_colon k.some_name (decimal-ne-nil n) refl
          (AreDigits-starts_char (decimal n) digits) p in
      let (checked, is_port) = digits_lem pr n l c.back in
      (hr', some pr, z, c.front, checked, is_port)
