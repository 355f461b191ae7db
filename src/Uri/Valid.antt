-- ===== src/Uri/Valid.antt =====
-- `Uri::try_from`: when it panics, and that the ranges of the URI that it gives are valid.
use http_req.Prelude.{
  ℕ, ◌+◌, ◌-◌, ◌≤◌, ◌<◌, ◌≡◌, sym, ap, ◌∙◌, subst, true, Option, none, some, arith, length,
  Bool-cases, Option-cases, inl, inr, le→leb, length-take, length-drop, take, drop,
}
use http_req.Text.{Str, str, str_eq, is_char_boundary, contains, find, get_range, starts_char}
use http_req.Text.Search.{find-starts_with, length-starts_with}
use http_req.Text.Slices.{
  IsText, IsAscii, IsText-take, IsText-drop, boundary-le-length, starts_char_of_boundary,
  starts_char-take,
}
use http_req.Error.{Error, parse, ok, ◌>>=◌}
use http_req.Error.Laws.{Ensures, Ensures-bind, Ensures-map_err}
use http_req.Uri.{RangeC, range_c, get_chunks, Authority, Uri}
use http_req.Uri.Auth.Valid.{get_chunks-Ensures, whole-IsRange}
use http_req.Uri.Auth.Valid as AuthValid
use http_req.Uri.Auth.{try_from as authority_try_from}
use http_req.Uri.Chunks.{IsRange, Each, Each_map, text_at, index-IsRange, get_chunks_lem}
use http_req.Uri.Parse.{parse_authority, take_authority, take_back_slash, split_path}

-- The authority is the text from `start` on, and valid.
pub record IsAt (s : Str) (start : ℕ) (a : Authority) : Type 0 where
  pub valid : AuthValid.IsValid a
  pub range : IsRange s (range_c start (start + length a.inner))
  pub text : text_at s (range_c start (start + length a.inner)) ≡ a.inner

abbrev pub AuthAt : Str → ℕ → Option Authority → Type 0
AuthAt s start none = Unit
AuthAt s start (some a) = IsAt s start a

pub record IsValid (u : Uri) : Type 0 where
  pub scheme : IsRange u.inner u.scheme
  pub authority : AuthAt u.inner (u.scheme.end + 3) u.authority
  pub path : Each (IsRange u.inner) u.path
  pub query : Each (IsRange u.inner) u.query
  pub fragment : Each (IsRange u.inner) u.fragment

-- A range behind a separator.
abbrev pub Behind : Str → RangeC → Type 0
Behind s r = IsRange s r × (0 < r.start) × (is_char_boundary s (r.start - 1) ≡ true)

-- The two bytes that are skipped as `//` do not end inside a character.
abbrev pub NoCut : Str → RangeC → Type 0
NoCut s u = contains (text_at s u) (str "//") ≡ true → is_char_boundary s (u.start + 2) ≡ true

pub length-text_at : (s : Str) (r : RangeC) → IsRange s r → length (text_at s r) ≡ r.end - r.start
length-text_at s r v = omega (
  arith,
  length-take (r.end - r.start) (drop r.start s),
  length-drop r.start s,
  boundary-le-length s r.end v.end_at,
  v.ordered,
)

pub contains-length : (s pat : Str) → contains s pat ≡ true → length pat ≤ length s
unfolding contains
contains-length s pat h = elim (Option-cases (find s pat)) [
  | inl e ↦ absurd (ground arith)
  | inr (i, e) ↦
      let (m, l) = find-starts_with s pat e in
      omega (arith, length-starts_with (drop i s) pat m, length-drop i s)
]

pub skip_IsRange :
    (s : Str) (u : RangeC)
    → IsRange s u
    → contains (text_at s u) (str "//") ≡ true
    → is_char_boundary s (u.start + 2) ≡ true
    → IsRange s (range_c (u.start + 2) u.end)
skip_IsRange s u v h b = record {
  ordered =
      omega (arith, contains-length (text_at s u) (str "//") h, length-text_at s u v, v.ordered);
  start_at = b;
  end_at = v.end_at;
}

module _ (s : Str) (t : IsText s) (c : starts_char s ≡ true) where
  pub text_at-IsText :
      (r : RangeC) → IsRange s r → IsText (text_at s r) × (starts_char (text_at s r) ≡ true)
  text_at-IsText r v = (
    IsText-take (r.end - r.start) _ (IsText-drop r.start s t),
    starts_char-take (r.end - r.start) _ (starts_char_of_boundary s r.start c v.start_at),
  )

  IsAt-of :
      (r : RangeC)
      → IsRange s r
      → (a : Authority) → AuthValid.IsValid a
      → a.inner ≡ text_at s r
      → IsAt s r.start a
  IsAt-of r v a k e =
      let l : length a.inner ≡ r.end - r.start = ap length e ∙ length-text_at s r v in
      let n : r.end ≡ r.start + length a.inner = omega (arith, v.ordered) in
      record { valid = k; range = rw (← n) v; text = rw (← n) (sym e) }

  parse_authority-Ensures :
      (o : Option RangeC) (start : ℕ)
      → Each (λ r. IsRange s r × (r.start ≡ start)) o
      → Ensures (AuthAt s start) (parse_authority s o)
  unfolding parse_authority
  parse_authority-Ensures none start h = tt
  parse_authority-Ensures (some r) start h = rw (index-IsRange s r h.0) (
      Ensures-bind (λ a. AuthValid.IsValid a × (a.inner ≡ text_at s r)) _ _ _
        (Ensures-map_err _ parse (authority_try_from (text_at s r))
          (AuthValid.try_from-Ensures (text_at s r) (text_at-IsText r h.0).0))
        λ a k. rw (← h.1) (IsAt-of r h.0 a k.0 k.1))

  pub take_authority-Ensures :
      (u : RangeC)
      → Behind s u
      → NoCut s u
      → Ensures (λ p. AuthAt s (u.start + 2) p.0 × Each (Behind s) p.1) (take_authority s (some u))
  unfolding take_authority
  take_authority-Ensures u h n =
      rw (index-IsRange s u h.0) (elim (Bool-cases (contains (text_at s u) (str "//"))) [
        | inr e ↦ rw e (tt, h)
        | inl e ↦ rw e (behind_slashes (skip_IsRange s u h.0 e (n e)))
      ])
    where
      behind_slashes :
          IsRange s (range_c (u.start + 2) u.end)
          → Ensures
              (λ (p : Option Authority × Option RangeC).
                AuthAt s (u.start + 2) p.0 × Each (Behind s) p.1)
              (get_chunks {E = Error} s (some (range_c (u.start + 2) u.end)) (str "/") >>= λ p.
                parse_authority s p.0 >>= λ a. ok (a, p.1))
      behind_slashes v =
          let (q, e, w) =
            get_chunks_lem s t (range_c (u.start + 2) u.end) v (str "/") (omega arith) (omega arith)
              {E = Error} in
          subst
            (λ m.
              Ensures
                (λ (p : Option Authority × Option RangeC).
                  AuthAt s (u.start + 2) p.0 × Each (Behind s) p.1)
                (m >>= λ p. parse_authority s p.0 >>= λ a. ok (a, p.1)))
            (sym e)
            (Ensures-bind (AuthAt s (u.start + 2)) _ (parse_authority s q.0) _
              (parse_authority-Ensures q.0 (u.start + 2)
                (Each_map _ _ (λ r k. (k.0, k.1)) q.0 w.before))
              λ a k. (k, Each_map _ _ (λ r b. (b.0, omega arith, b.3)) q.1 w.after))

  pub take_back_slash-Ensures :
      (o : Option RangeC) → Each (Behind s) o → Ensures (Each (IsRange s)) (take_back_slash s o)
  unfolding take_back_slash get_range
  take_back_slash-Ensures none h = tt
  take_back_slash-Ensures (some u) h =
      rw (le→leb (u.start - 1) u.start (omega arith), h.2, h.0.start_at)
        (elim (Bool-cases
          (str_eq (take (u.start - (u.start - 1)) (drop (u.start - 1) s)) (str "/"))) [
            | inl e ↦ rw e (record {
              ordered = omega (arith, h.0.ordered);
              start_at = h.2;
              end_at = h.0.end_at;
            })
            | inr e ↦ rw e h.0
          ])

  abbrev pub AreRanges : Option RangeC × Option RangeC × Option RangeC → Type 0
  AreRanges p = Each (IsRange s) p.0 × Each (IsRange s) p.1 × Each (IsRange s) p.2

  pub split_path-Ensures :
      (o : Option RangeC) → Each (IsRange s) o → Ensures AreRanges (split_path s o)
  unfolding split_path
  split_path-Ensures none h = (tt, tt, tt)
  split_path-Ensures (some u) h =
      rw (index-IsRange s u h) (elim (Bool-cases (contains (text_at s u) (str "?"))) [
        | inl q ↦ elim (Bool-cases (contains (text_at s u) (str "#"))) [
          | inl f ↦
              rw (q, f)
                (Ensures-bind Pair AreRanges (get_chunks {E = Error} s (some u) (str "?")) _
                  (at_mark (some u) (str "?") h (omega arith) (omega arith))
                  λ p k.
                    Ensures-bind Pair AreRanges (get_chunks {E = Error} s p.1 (str "#")) _
                      (at_mark p.1 (str "#") k.1 (omega arith) (omega arith))
                      λ r l. (k.0, l.0, l.1))
          | inr f ↦
              rw (q, f)
                (Ensures-bind Pair AreRanges (get_chunks {E = Error} s (some u) (str "?")) _
                  (at_mark (some u) (str "?") h (omega arith) (omega arith)) λ p k. (k.0, k.1, tt))
        ]
        | inr q ↦ elim (Bool-cases (contains (text_at s u) (str "#"))) [
          | inl f ↦
              rw (q, f)
                (Ensures-bind Pair AreRanges (get_chunks {E = Error} s (some u) (str "#")) _
                  (at_mark (some u) (str "#") h (omega arith) (omega arith)) λ p k. (k.0, tt, k.1))
          | inr f ↦ rw (q, f) (h, tt, tt)
        ]
      ])
    where
      Pair : Option RangeC × Option RangeC → Type 0
      Pair p = Each (IsRange s) p.0 × Each (IsRange s) p.1

      at_mark :
          (o : Option RangeC) (sep : Str)
          → Each (IsRange s) o
          → IsAscii sep
          → 0 < length sep
          → Ensures {E = Error} Pair (get_chunks s o sep)
      at_mark = get_chunks-Ensures s t Error
