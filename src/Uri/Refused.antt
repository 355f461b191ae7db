-- ===== src/Uri/Refused.antt =====
-- Which texts `Uri::try_from` refuses.
use http_req.Prelude.{
  ℕ, suc, ◌+◌, ◌-◌, ◌≤◌, ◌<◌, ◌≡◌, refl, sym, ap, ◌∙◌, Bool, true, false, ◌||◌, ◌&&◌, not, Option,
  none, some, [], ◌∷◌, arith, length, take, drop, drop-take, drop-drop, length-drop, Bool-cases,
  inl, inr, ◌==◌, take-take, length-take,
}
use http_req.Text.{Str, str, find, contains, is_char_boundary, starts_char}
use http_req.Text.Slices.{IsText}
use http_req.Text.Utf8.{utf8_error, utf8_error-IsText}
use http_req.Error.{uri_err, ParseErr, Error, parse, Outcome, ok, err, panic, ◌>>=◌, map_err}
use http_req.Error.Laws.{Ensures}
use http_req.Uri.{RangeC, range_c, get_chunks, chunks_at, non_empty, Authority, Uri}
use http_req.Uri.Auth.{try_from as authority_try_from}
use http_req.Uri.Auth.Refused.{is_nothing, Decides, try_from-Decides}
use http_req.Uri.Auth.Refused as Authority
use http_req.Uri.Auth.Valid.{whole-IsRange, IsSplit-AreRanges}
use http_req.Uri.Chunks.{IsRange, Each, text_at, index-IsRange, chunks_at-IsSplit, match_at}
use http_req.Uri.Parse.{parse_authority, take_authority, take_back_slash, split_path, try_from}
use http_req.Uri.Valid.{length-text_at, text_at-IsText, skip_IsRange, IsValid}
use http_req.Uri.Panics.{
  cuts_char, whole, after_scheme, try_from-after_scheme, text_at-whole, text_at-end, index-cut,
  try_from-Ensures, try_from-cut,
}
use http_req.Uri.Fine.{
  Fails, Fine, Fails-bind, Fine-bind, Fine-ok, take_back_slash-Fine, split_path-Fine,
}

-- Of the text behind the first `:`: the authority, which stands behind the first two bytes if `//`
-- stands anywhere.
abbrev pub front : Str → Option ℕ → Str
front y none = y
front y (some j) = take j y

abbrev pub authority_text : Str → Str
authority_text x = let y : Str = drop 2 x in front y (find y (str "/"))

abbrev pub is_refused : Str → Bool
is_refused a = not (is_nothing a) && Authority.refused a

abbrev pub refused_at : Str → Option ℕ → Bool
refused_at s none = is_nothing s
refused_at s (some i) =
    i == 0 || contains (drop (suc i) s) (str "//") && is_refused (authority_text (drop (suc i) s))

-- There is no scheme, or an authority that `Authority::try_from` refuses.
abbrev pub refused : Str → Bool
refused s = refused_at s (find s (str ":"))

-- The result of a text that is cut inside a character, refused, or neither.
abbrev pub Becomes : Outcome Error Uri → Bool → Bool → Type 0
Becomes (ok u) cut b = (cut ≡ false) × (b ≡ false)
Becomes (err e) cut b = (cut ≡ false) × (b ≡ true) × (e ≡ parse uri_err)
Becomes panic cut b = cut ≡ true

module _ (s : Str) where
  -- The errors of `Authority::try_from` are passed on.
  passed_on :
      (o : Outcome ParseErr Authority) (b : Bool)
      → Decides o b
      → Fails (map_err parse o >>= λ a. ok (some a)) b
  passed_on (ok a) b h = h
  passed_on (err e) b h = (h.1, ap parse h.0)
  passed_on panic b h = tt

  module _ (t : IsText s) (c : starts_char s ≡ true) where
    parse_some :
        (r : RangeC) (a : Str)
        → text_at s r ≡ a
        → 0 < length a
        → IsRange s r
        → Fails (parse_authority s (some r)) (is_refused a)
    unfolding parse_authority
    parse_some r [] e h v = absurd (omega arith)
    parse_some r (d ∷ a) e h v =
        let a_text : IsText (d ∷ a) = rw e at (text_at-IsText s t c r v).0 in
        rw (index-IsRange s r v, e)
          (passed_on (authority_try_from (d ∷ a)) (Authority.refused (d ∷ a))
            (try_from-Decides (d ∷ a) a_text))

    no_text : (a : Str) → length a ≡ 0 → is_refused a ≡ false
    no_text [] h = refl
    no_text (d ∷ a) h = absurd (omega arith)

    parse_authority-Fails :
        (r : RangeC) (a : Str)
        → Each (IsRange s) (non_empty r)
        → text_at s r ≡ a
        → length a ≡ r.end - r.start
        → r.start ≤ r.end
        → Fails (parse_authority s (non_empty r)) (is_refused a)
    unfolding parse_authority
    parse_authority-Fails r a v e k l = elim (Bool-cases (r.start == r.end)) [
      | inl h ↦ let z : length a ≡ 0 = ground arith in rw (h, no_text a z) refl
      | inr h ↦ let z : 0 < length a = ground arith in rw h (parse_some r a e z (rw h at v))
    ]

    at_slash :
        (r : RangeC) (v : IsRange s r) (y : Str) (o : Option ℕ)
        → text_at s r ≡ y
        → find y (str "/") ≡ o
        → Fails (parse_authority s (chunks_at r 1 y o).0) (is_refused (front y o))
    unfolding chunks_at parse_authority
    at_slash r v [] none e h = refl
    at_slash r v (d ∷ y) none e h = parse_some r (d ∷ y) e (omega arith) v
    at_slash r v y (some j) e h =
        let found : find (text_at s r) (str "/") ≡ some j = ap (λ z. find z (str "/")) e ∙ h in
        let split =
          chunks_at-IsSplit s t r v (str "/") (omega arith) (omega arith) (some j) found in
        let fits : 1 ≤ r.end - r.start - j = (match_at s r (str "/") found).1 in
        let long : length y ≡ r.end - r.start = ap length (sym e) ∙ length-text_at s r v in
        let short : r.start + j + 1 - 1 - r.start ≡ j = omega arith in
        let text : text_at s (range_c r.start (r.start + j + 1 - 1)) ≡ take j y =
          ap (λ k. take k (drop r.start s)) short
          ∙ sym (take-take j (r.end - r.start) (drop r.start s) (omega arith))
          ∙ ap (take j) e in
        parse_authority-Fails (range_c r.start (r.start + j + 1 - 1)) (take j y)
          (IsSplit-AreRanges s r _ _ split).0 text (omega (arith, length-take j y)) (omega arith)

    take_authority-Fails :
        (u : RangeC) (x : Str)
        → IsRange s u
        → text_at s u ≡ x
        → Fails (take_authority s (some u)) (contains x (str "//") && is_refused (authority_text x))
    unfolding take_authority get_chunks
    take_authority-Fails u x v e = elim (Bool-cases (contains x (str "//"))) [
      | inr k ↦ rw (index-IsRange s u v, e, k) refl
      | inl k ↦ elim (Bool-cases (is_char_boundary s (u.start + 2))) [
        | inr b ↦ rw (index-IsRange s u v, e, k, index-cut s (range_c (u.start + 2) u.end) b) tt
        | inl b ↦
            let r : RangeC = range_c (u.start + 2) u.end in
            let v' : IsRange s r = skip_IsRange s u v (rw (sym e) at k) b in
            let y : Str = drop 2 x in
            let less : u.end - u.start - 2 ≡ u.end - (u.start + 2) = omega arith in
            let text : text_at s r ≡ y = sym (
              ap (drop 2) (sym e)
              ∙ drop-take 2 (u.end - u.start) (drop u.start s)
              ∙ ap (take (u.end - u.start - 2)) (drop-drop 2 u.start s)
              ∙ ap (λ n. take n (drop (u.start + 2) s)) less) in
            rw (index-IsRange s u v, e, k, index-IsRange s r v', text)
              (Fails-bind (parse_authority s (chunks_at r 1 y (find y (str "/"))).0) _
                (is_refused (authority_text x)) (at_slash r v' y (find y (str "/")) text refl)
                λ a. Fine-ok _)
      ]
    ]

    -- Behind the authority nothing is refused.
    rest-Fine :
        (scheme : RangeC) (a : Option Authority × Option RangeC)
        → Fine {A = Uri} (
            take_back_slash s a.1 >>= λ r. split_path s r >>= λ q. ok (record {
              inner = s;
              scheme = scheme;
              authority = a.0;
              path = q.0;
              query = q.1;
              fragment = q.2;
            }))
    rest-Fine scheme a =
        Fine-bind (take_back_slash s a.1) _ (take_back_slash-Fine s a.1)
          λ r. Fine-bind (split_path s r) _ (split_path-Fine s r) λ q. Fine-ok _

    no_colon : (x : Str) → Fails (after_scheme s (chunks_at (whole s) 1 x none)) (is_nothing x)
    unfolding chunks_at take_authority take_back_slash split_path
    no_colon [] = (refl, refl)
    no_colon (d ∷ x) = refl

    nothing :
        (x : Str) → length x ≡ 0 → (contains x (str "//") && is_refused (authority_text x)) ≡ false
    unfolding contains find
    nothing [] h = refl
    nothing (d ∷ x) h = absurd (omega arith)

    behind_colon :
        (scheme u : RangeC) (x : Str)
        → Each (IsRange s) (non_empty u)
        → text_at s u ≡ x
        → length x ≡ u.end - u.start
        → u.start ≤ u.end
        → Fails
            (after_scheme s (some scheme, non_empty u))
            (contains x (str "//") && is_refused (authority_text x))
    unfolding take_authority take_back_slash split_path
    behind_colon scheme u x v e k l = elim (Bool-cases (u.start == u.end)) [
      | inl h ↦ rw h (nothing x (let z : u.start ≡ u.end = ground arith in omega arith))
      | inr h ↦ rw h (
          Fails-bind (take_authority s (some u)) _ _ (take_authority-Fails u x (rw h at v) e)
            λ a. rest-Fine scheme a)
    ]

    at_colon :
        (o : Option ℕ)
        → find s (str ":") ≡ o
        → Fails (after_scheme s (chunks_at (whole s) 1 s o)) (refused_at s o)
    unfolding chunks_at
    at_colon none h = no_colon s
    at_colon (some i) h =
        let found : find (text_at s (whole s)) (str ":") ≡ some i =
          ap (λ z. find z (str ":")) (text_at-whole s) ∙ h in
        let split =
          chunks_at-IsSplit s t (whole s) (whole-IsRange s) (str ":") (omega arith) (omega arith)
            (some i) found in
        let fits : 1 ≤ length s - 0 - i = (match_at s (whole s) (str ":") found).1 in
        let mid : 0 + i + 1 ≡ suc i = omega arith in
        let text : text_at s (range_c (0 + i + 1) (length s)) ≡ drop (suc i) s =
          text_at-end s (0 + i + 1) ∙ ap (λ k. drop k s) mid in
        elim (Bool-cases (i == 0)) [
          | inl z ↦
              let host : (0 == 0 + i + 1 - 1) ≡ true = ground arith in rw (host, z) (refl, refl)
          | inr z ↦
              let host : (0 == 0 + i + 1 - 1) ≡ false = ground arith in
              rw (host, z)
                (behind_colon (range_c 0 (0 + i + 1 - 1)) (range_c (0 + i + 1) (length s))
                  (drop (suc i) s) (IsSplit-AreRanges s (whole s) _ _ split).1 text
                  (omega (arith, length-drop (suc i) s)) (omega arith))
        ]

becomes :
    (s : Str) (o : Outcome Error Uri) (b : Bool)
    → Fails o b
    → Ensures (λ u. IsValid u × (u.inner ≡ s)) o
    → Becomes o false b
becomes s (ok u) b h k = (refl, h)
becomes s (err e) b h k = (refl, h.0, h.1)
becomes s panic b h k = absurd k

-- What `Uri::try_from` makes of a UTF-8 text. It panics exactly if the text is cut inside a character
-- by the two bytes that are skipped as `//`. Otherwise it fails exactly if nothing stands in front of
-- the first `:` or the text is empty, or if `//` stands behind that `:` and the text from the second
-- byte behind it to the next `/` is not empty and refused as an authority; and then with `UriErr`.
pub try_from-Becomes :
    (s : Str) → utf8_error s ≡ none → Becomes (try_from s) (cuts_char s) (refused s)
try_from-Becomes s w = elim (Bool-cases (cuts_char s)) [
  | inl h ↦ rw (try_from-cut s w h) h
  | inr h ↦
      let (t, c) = utf8_error-IsText s w in
      let e = try_from-after_scheme s in
      rw h (
        becomes s (try_from s) (refused s) (rw e (at_colon s t c (find s (str ":")) refl))
          (try_from-Ensures s w h))
]
