-- ===== src/Uri/Auth/Whole.antt =====
-- `Authority::try_from` on an authority that is written from its parts: the whole of it.
use http_req.Prelude.{
  ℕ, ◌<◌, ◌≡◌, ap, ◌∙◌, append_assoc, length, refl, true, false, Option, none, some, [], ◌∷◌, ◌++◌,
  arith, length-append, ne-nil, pos-length, ◌==◌,
}
use http_req.Text.{Str, str, starts_char, contains}
use http_req.Text.Number.{is_digit, decimal}
use http_req.Text.Number.Laws.{decimal-AreDigits, AreDigits-Lacks}
use http_req.Text.Search.{Lacks, Lacks-append, contains-eq-false, contains-append}
use http_req.Error.{ok}
use http_req.Uri.{Authority, RangeC}
use http_req.Uri.Auth.Bracketed.{bracket_lem}
use http_req.Uri.Auth.{split_by, try_from, username, password, host, port}
use http_req.Uri.Spans.{Span, starts_char-append, index-Span, text_of-StandsAt}
use http_req.Uri.Auth.Written.{
  Info, info_text, port_text, authority_text, IsInfo, IsPort, user_of, password_of, AuthorityIs,
  info_lem, port_lem, Host, named, bracketed, host_text, IsHost, Ports,
}

port_text-Lacks :
    (c : ℕ) (m : Option ℕ) → (b':' == c) ≡ false → is_digit c ≡ false → Lacks c (port_text m)
port_text-Lacks c none k d = tt
port_text-Lacks c (some m) k d = (k, AreDigits-Lacks (decimal m) c d (decimal-AreDigits m))

port_text-char : (m : Option ℕ) → starts_char (port_text m) ≡ true
port_text-char none = refl
port_text-char (some m) = refl

info_text-Lacks : (j : Info) → IsInfo j → Lacks b'[' (info_text j)
info_text-Lacks none k = tt
info_text-Lacks (some (u, none)) k = Lacks-append b'[' u (b'@' ∷ []) k.no_bracket (refl, tt)
info_text-Lacks (some (u, some p)) (k, k') =
    Lacks-append b'[' u (b':' ∷ (p ++ b'@' ∷ [])) k.no_bracket
      (refl, Lacks-append b'[' p (b'@' ∷ []) k'.no_bracket (refl, tt))

-- What the parser looks for between the host and the port.
abbrev separator : Host → Str
separator (named h) = str ":"
separator (bracketed x) = str "]:"

host_text-Lacks : (h : Host) → IsHost h → Lacks b'@' (host_text h)
host_text-Lacks (named h) k = k.no_at
host_text-Lacks (bracketed x) (k, l) = (refl, Lacks-append b'@' x (b']' ∷ []) k (refl, tt))

host_text-char : (h : Host) → IsHost h → starts_char (host_text h) ≡ true
host_text-char (named h) k = k.name_char
host_text-char (bracketed x) k = refl

host_text-length : (h : Host) → IsHost h → 0 < length (host_text h)
host_text-length (named h) k = pos-length h k.some_name
host_text-length (bracketed x) k = omega arith

split_by-eq-separator :
    (i : Info) (h : Host) (n : Option ℕ)
    → IsInfo i
    → IsHost h
    → split_by (authority_text i h n) ≡ separator h
unfolding split_by
split_by-eq-separator i (named h) n info name =
    let lacks : Lacks b'[' (authority_text i (named h) n) =
      Lacks-append b'[' (info_text i) (h ++ port_text n) (info_text-Lacks i info)
        (Lacks-append b'[' h (port_text n) name.no_bracket (port_text-Lacks b'[' n refl refl)) in
    rw (contains-eq-false b'[' (authority_text i (named h) n) lacks) refl
split_by-eq-separator i (bracketed x) n info name =
    let text : Str = authority_text i (bracketed x) n in
    let opens : contains text (str "[") ≡ true =
      contains-append b'[' (info_text i) ((x ++ b']' ∷ []) ++ port_text n) in
    let cut : text ≡ (info_text i ++ (b'[' ∷ x)) ++ (b']' ∷ port_text n) = simp append_assoc in
    let closes : contains text (str "]") ≡ true =
      ap (λ w. contains w (str "]")) cut
      ∙ contains-append b']' (info_text i ++ (b'[' ∷ x)) (port_text n) in
    rw (opens, closes) refl

ports :
    (s : Str) (r : RangeC) (h : Host) (n : Option ℕ)
    → IsHost h
    → IsPort n
    → Span s r (host_text h ++ port_text n)
    → Ports s (separator h) r (host_text h) n
ports s r (named h) n k t p = port_lem s r h n k t p
ports s r (bracketed x) n (k, l) t p = bracket_lem s r x l n t p

-- An authority that is written from a host, which is a name or a text in brackets, a port below 2^16
-- or none, and a user name, with or without a password, or none, is parsed, and the accessors give
-- its parts back. The names are not empty and have no `@`, no `:` and no `[`; the text in brackets
-- has no `@` and no `]`; names begin on a character boundary.
pub try_from-authority_text :
    (i : Info) (h : Host) (n : Option ℕ)
    → IsInfo i
    → IsHost h
    → IsPort n
    → (a : Authority) × (try_from (authority_text i h n) ≡ ok a) × AuthorityIs i h n a
unfolding try_from username password host port
try_from-authority_text i h n info name fits =
    let text : Str = authority_text i h n in
    let behind : Str = host_text h ++ port_text n in
    let (uo, po, hr, z, us, ps, back) =
      info_lem text i behind info
        (Lacks-append b'@' (host_text h) (port_text n) (host_text-Lacks h name)
          (port_text-Lacks b'@' n refl refl))
        (ne-nil behind
          (omega (arith, length-append (host_text h) (port_text n), host_text-length h name)))
        (starts_char-append (host_text h) (port_text n) (host_text-char h name) (port_text-char n))
        refl in
    let (hr', pr, z', hs, checked, port_is) = ports text hr h n name fits back in
    (
      record { inner = text; username = uo; password = po; host = hr'; port = pr },
      rw z (rw (split_by-eq-separator i h n info name) (rw z' (rw checked refl))),
      record {
        username_is = text_of-StandsAt text (user_of i) uo us;
        password_is = text_of-StandsAt text (password_of i) po ps;
        host_is = index-Span text hr' (host_text h) hs;
        port_is = port_is;
      },
    )
