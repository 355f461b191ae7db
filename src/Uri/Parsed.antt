-- ===== src/Uri/Parsed.antt =====
-- `Uri::try_from` on a URI with an authority, written from its parts.
use http_req.Prelude.{
  ◌+◌, ◌-◌, ◌≡◌, ◌≢◌, refl, sym, ap, ◌∙◌, subst, true, Option, none, some, [], ◌∷◌, ◌++◌, length,
  arith,
}
use http_req.Text.{Str, str, starts_char, contains, starts_with, find, str_eq, get_range}
use http_req.Text.Search.{Lacks}
use http_req.Error.{Error, ok}
use http_req.Uri.{RangeC, range_c, index, Authority, Uri}
use http_req.Uri.Auth as Auth
use http_req.Uri.Access.{scheme, path, query, fragment, resource, resource_in}
use http_req.Uri.Parse.{take_authority, parse_authority, take_back_slash, try_from}
use http_req.Uri.Spans.{
  Span, starts_char-append, index-Span, Span-whole, Span-back, cut_lem, text_of-StandsAt,
}
use http_req.Uri.Written.{query_text, fragment_text, IsPart, IsQuery, IsFragment, split_path_lem}

-- The parts of a URI: a scheme; the text of an authority, which is read as `authority`; the path
-- behind its first `/`; a query and a fragment.
pub record Parts : Type 0 where
  pub scheme : Str
  pub authority_text : Str
  pub authority : Authority
  pub path : Str
  pub query : Option Str
  pub fragment : Option Str

abbrev pub behind_path : Parts → Str
behind_path c = query_text c.query ++ fragment_text c.fragment

abbrev pub uri_text : Parts → Str
uri_text c = c.scheme ++ (str "://" ++ (c.authority_text ++ (b'/' ∷ (c.path ++ behind_path c))))

pub record AreParts (c : Parts) : Type 0 where
  pub scheme_part : IsPart c.scheme
  pub no_colon : Lacks b':' c.scheme
  pub authority_part : IsPart c.authority_text
  pub no_slash : Lacks b'/' c.authority_text
  pub is_authority : Auth.try_from c.authority_text ≡ ok c.authority
  pub path_char : starts_char c.path ≡ true
  pub no_question_mark : Lacks b'?' c.path
  pub no_hash : Lacks b'#' c.path
  pub is_query : IsQuery c.query
  pub is_fragment : IsFragment c.query c.fragment
  -- With nothing behind it the `/` is not taken for a path.
  pub some_path : c.path ++ behind_path c ≢ []

behind_char : (q f : Option Str) → starts_char (query_text q ++ fragment_text f) ≡ true
behind_char none none = refl
behind_char none (some y) = refl
behind_char (some x) f = refl

-- What the accessors give.
pub record AreRead (c : Parts) (u : Uri) : Type 0 where
  pub scheme_text : scheme u ≡ some c.scheme
  pub authority_is : u.authority ≡ some c.authority
  pub path_text : path u ≡ some (some (b'/' ∷ c.path))
  pub query_is : query u ≡ some c.query
  pub fragment_is : fragment u ≡ some c.fragment
  pub resource_is : resource u ≡ some (b'/' ∷ (c.path ++ behind_path c))

module _ (c : Parts) (h : AreParts c) where
  abbrev text : Str
  text = uri_text c

  abbrev resource_text : Str
  resource_text = b'/' ∷ (c.path ++ behind_path c)

  -- What `//` and what stands behind it lead to.
  pub record AfterAuthority (u : RangeC) (rest : RangeC) : Type 0 where
    pub taken : take_authority text (some u) ≡ ok (some c.authority, some rest)
    pub slash : index text (range_c (rest.start - 1) rest.start) ≡ some (str "/")
    pub resource_at : Span text (range_c (rest.start - 1) rest.end) resource_text
    pub rest_end : rest.end ≡ u.end

  after_authority :
      (u : RangeC)
      → Span text u (b'/' ∷ b'/' ∷ (c.authority_text ++ resource_text))
      → (rest : RangeC) × AfterAuthority u rest
  unfolding take_authority parse_authority contains find starts_with
  after_authority u p =
      let after : Str = c.authority_text ++ resource_text in
      let after_char : starts_char after ≡ true =
        starts_char-append c.authority_text _ h.authority_part.1 refl in
      let rest_char : starts_char (c.path ++ behind_path c) ≡ true =
        starts_char-append c.path (behind_path c) h.path_char (behind_char c.query c.fragment) in
      let (a, r, z, k) =
        cut_lem {E = Error} b'/' c.authority_text (c.path ++ behind_path c) h.no_slash
          h.authority_part.0 h.some_path refl rest_char (Span-back (str "//") after after_char p) in
      let back : r.start - 1 ≡ a.end = omega (arith, k.between) in
      (
        r,
        record {
          taken =
              rw (index-Span text u _ p)
                (rw z (rw (index-Span text a c.authority_text k.front) (rw h.is_authority refl)));
          slash =
              ap (λ n. index text (range_c n r.start)) back
              ∙ ap (λ n. index text (range_c a.end n)) k.between
              ∙ index-Span text (range_c a.end (a.end + 1)) (str "/") k.alone;
          resource_at =
              subst (λ n. Span text (range_c n r.end) resource_text) (sym back)
                (subst (λ n. Span text (range_c a.end n) resource_text) (sym k.ends) k.joint);
          rest_end = k.ends;
        },
      )

  take_back_slash_lem :
      (u rest : RangeC)
      → AfterAuthority u rest
      → take_back_slash text (some rest) ≡ ok (some (range_c (rest.start - 1) rest.end))
  unfolding take_back_slash str_eq index
  take_back_slash_lem u rest k = rw k.slash refl

  parsed : (u : Uri) × (try_from text ≡ ok u) × AreRead c u
  unfolding try_from scheme path query fragment resource resource_in index
  parsed =
      let rest_ne : str "//" ++ (c.authority_text ++ resource_text) ≢ [] = λ e. cc in
      let (x, u, z, k) =
        cut_lem {E = Error} b':' c.scheme (str "//" ++ (c.authority_text ++ resource_text))
          h.no_colon h.scheme_part.0 rest_ne refl refl
          (Span-whole text (starts_char-append c.scheme _ h.scheme_part.1 refl)) in
      let (rest, after) = after_authority u k.back in
      let whole : RangeC = range_c (rest.start - 1) rest.end in
      let (o, q, at) =
        split_path_lem text whole (b'/' ∷ c.path) ((λ e. cc), refl) (refl, h.no_question_mark)
          (refl, h.no_hash) c.query c.fragment h.is_query h.is_fragment after.resource_at in
      (
        record {
          inner = text;
          scheme = x;
          authority = some c.authority;
          path = o.0;
          query = o.1;
          fragment = o.2;
        },
        rw z (rw after.taken (rw (take_back_slash_lem u rest after) (rw q refl))),
        record {
          scheme_text = index-Span text x c.scheme k.front;
          authority_is = refl;
          path_text =
              text_of-StandsAt text (some (b'/' ∷ c.path)) o.0 (at.at, at.is_path, at.path_at);
          query_is = text_of-StandsAt text c.query o.1 at.query_at;
          fragment_is = text_of-StandsAt text c.fragment o.2 at.fragment_at;
          resource_is =
              ap (resource_in text) at.is_path
              ∙ ap (λ n. get_range text n (length text)) at.path_start
              ∙ ap (get_range text (rest.start - 1)) (sym (after.rest_end ∙ k.ends))
              ∙ index-Span text whole resource_text after.resource_at;
        },
      )

-- A URI that is written from a scheme without `:`, an authority without `/` that `Authority::try_from`
-- takes, a `/`, a path without `?` and `#` and, where there are some, a query without `#` and a
-- fragment, which without a query has no `?`, with something behind the first `/`, is parsed, and the
-- accessors give its parts back.
pub try_from-uri_text :
    (c : Parts) → AreParts c → (u : Uri) × (try_from (uri_text c) ≡ ok u) × AreRead c u
try_from-uri_text c h = parsed c h
