-- ===== src/Uri/Panics.antt =====
-- `Uri::try_from`: exactly when it panics, and what holds of the URI that it gives.
use http_req.Prelude.{
  ℕ, suc, ◌+◌, ◌-◌, ◌≤◌, ◌<◌, ◌≡◌, ◌↔◌, refl, sym, ap, ◌∙◌, Bool, true, false, ◌&&◌, not, Option,
  none, some, arith, length, Bool-cases, Option-cases, inl, inr, ◌==◌, drop, take-all, length-drop,
  [], ◌∷◌,
}
use http_req.Text.{Str, str, is_char_boundary, contains, find, starts_char, get_range}
use http_req.Text.Slices.{IsText, boundary-drop}
use http_req.Text.Utf8.{utf8_error, utf8_error-IsText}
use http_req.Error.{Error, parse, uri_err, Outcome, ok, panic, ◌>>=◌, ok_or}
use http_req.Error.Laws.{Ensures, Ensures-bind, Ensures-ok, Ensures-ne-panic}
use http_req.Uri.{RangeC, range_c, index, get_chunks, chunks_at, non_empty, Uri}
use http_req.Uri.Auth.Valid.{whole-IsRange}
use http_req.Uri.Chunks.{
  IsRange, Each, Each_map, Each-non_empty, IsSplit, text_at, index-IsRange, chunks_at-IsSplit,
}
use http_req.Uri.Parse.{take_authority, take_back_slash, split_path, try_from}
use http_req.Uri.Valid.{
  IsValid, NoCut, AuthAt, Behind, take_authority-Ensures, take_back_slash-Ensures,
  split_path-Ensures, AreRanges, contains-length,
}

-- Behind the first `:`, which is not in front, `//` stands somewhere and the second byte ends
-- inside a character.
abbrev pub cuts_at : Str → Option ℕ → Bool
cuts_at s none = false
cuts_at s (some i) =
    not (i == 0)
    && contains (drop (suc i) s) (str "//")
    && not (is_char_boundary (drop (suc i) s) 2)

abbrev pub cuts_char : Str → Bool
cuts_char s = cuts_at s (find s (str ":"))

abbrev pub whole : Str → RangeC
whole s = range_c 0 (length s)

-- `Uri::try_from` behind its first call of `get_chunks`.
abbrev pub after_scheme : Str → Option RangeC × Option RangeC → Outcome Error Uri
after_scheme s p = ok_or p.0 (parse uri_err) >>= λ scheme. take_authority s p.1 >>= λ a.
    take_back_slash s a.1 >>= λ r. split_path s r >>= λ q. ok (record {
      inner = s;
      scheme = scheme;
      authority = a.0;
      path = q.0;
      query = q.1;
      fragment = q.2;
    })

pub text_at-whole : (s : Str) → text_at s (whole s) ≡ s
text_at-whole s = take-all s (length s - 0) (omega arith)

pub try_from-after_scheme :
    (s : Str) → try_from s ≡ after_scheme s (chunks_at (whole s) 1 s (find s (str ":")))
unfolding try_from get_chunks
try_from-after_scheme s = rw (index-IsRange s (whole s) (whole-IsRange s), text_at-whole s) refl

pub text_at-end : (s : Str) (n : ℕ) → text_at s (range_c n (length s)) ≡ drop n s
text_at-end s n = take-all (drop n s) (length s - n) (omega (arith, length-drop n s))

module _ (s : Str) (t : IsText s) (c : starts_char s ≡ true) where
  after_scheme-Ensures :
      (b a : Option RangeC)
      → IsSplit s (whole s) b a
      → ((r : RangeC) → b ≡ some r → Each (NoCut s) a)
      → Ensures (λ u. IsValid u × (u.inner ≡ s)) (after_scheme s (b, a))
  after_scheme-Ensures none a v n = tt
  after_scheme-Ensures (some scheme) a v n =
      Ensures-bind (λ p. AuthAt s (scheme.end + 3) p.0 × Each (Behind s) p.1) _ (take_authority s a)
        _ (authority a v.after v.adjacent (n scheme refl))
        λ p k.
          Ensures-bind (Each (IsRange s)) _ (take_back_slash s p.1) _
            (take_back_slash-Ensures s t c p.1 k.1)
            λ r l.
              Ensures-bind (AreRanges s t c) _ (split_path s r) _ (split_path-Ensures s t c r l)
                λ q m. (
                  record {
                    scheme = v.before.0;
                    authority = k.0;
                    path = m.0;
                    query = m.1;
                    fragment = m.2;
                  },
                  refl,
                )
    where
      authority :
          (a : Option RangeC)
          → Each
              (λ x.
                IsRange s x
                × (x.end ≡ length s)
                × (0 < x.start)
                × (is_char_boundary s (x.start - 1) ≡ true))
              a
          → Each (λ y. y.start ≡ scheme.end + 1) a
          → Each (NoCut s) a
          → Ensures (λ p. AuthAt s (scheme.end + 3) p.0 × Each (Behind s) p.1) (take_authority s a)
      authority none h e n = unfold take_authority in (tt, tt)
      authority (some u) h e n =
          let k : u.start + 2 ≡ scheme.end + 3 = omega arith in
          rw k at (take_authority-Ensures s t c u (h.0, h.2, h.3) n)

module _ (s : Str) where
  -- The condition of `cuts_char`, read at the range behind the first `:`.
  NoCut-after :
      (o : Option ℕ) (r : RangeC)
      → cuts_at s o ≡ false
      → (chunks_at (whole s) 1 s o).0 ≡ some r
      → Each (NoCut s) (chunks_at (whole s) 1 s o).1
  unfolding chunks_at
  NoCut-after none r h e = nothing s
    where
      nothing : (x : Str) → Each (NoCut s) (chunks_at (whole s) 1 x none).1
      nothing [] = tt
      nothing (c ∷ x) = tt
  NoCut-after (some i) r h e =
      let mid : suc i ≡ 0 + i + 1 = omega arith in
      let place : suc i + 2 ≡ 0 + i + 1 + 2 = omega arith in
      let ne : (i == 0) ≡ false = ground arith in
      Each-non_empty (NoCut s) (range_c (0 + i + 1) (length s)) λ k.
        let k' : contains (drop (suc i) s) (str "//") ≡ true =
          rw (text_at-end s (0 + i + 1), ← mid) at k in
        let b : is_char_boundary (drop (suc i) s) 2 ≡ true = ground arith in
        rw (← place) (sym (boundary-drop (suc i) 1 s) ∙ b)

  pub index-cut : (r : RangeC) → is_char_boundary s r.start ≡ false → index s r ≡ none
  unfolding index get_range
  index-cut r h = ground arith

  take_authority-cut :
      (u : RangeC)
      → IsRange s u
      → contains (text_at s u) (str "//") ≡ true
      → is_char_boundary s (u.start + 2) ≡ false
      → take_authority s (some u) ≡ panic
  unfolding take_authority get_chunks
  take_authority-cut u v h b =
      rw (index-IsRange s u v) (rw h (rw (index-cut (range_c (u.start + 2) u.end) b) refl))

  cut-panics :
      (i : ℕ)
      → cuts_at s (some i) ≡ true
      → IsSplit s
          (whole s)
          (chunks_at (whole s) 1 s (some i)).0
          (chunks_at (whole s) 1 s (some i)).1
      → after_scheme s (chunks_at (whole s) 1 s (some i)) ≡ panic
  unfolding chunks_at
  cut-panics i h v =
      let mid : suc i ≡ 0 + i + 1 = omega arith in
      let place : suc i + 2 ≡ 0 + i + 1 + 2 = omega arith in
      let double : contains (drop (suc i) s) (str "//") ≡ true = ground arith in
      let cut : is_char_boundary (drop (suc i) s) 2 ≡ false = ground arith in
      let long : 2 ≤ length (drop (suc i) s) = contains-length (drop (suc i) s) (str "//") double in
      let first : (0 == 0 + i + 1 - 1) ≡ false = ground arith in
      let second : (0 + i + 1 == length s) ≡ false = ground (arith, length-drop (suc i) s) in
      let u : RangeC = range_c (0 + i + 1) (length s) in
      let behind : Each (IsRange s) (non_empty u) = Each_map _ (IsRange s) (λ x k. k.0) _ v.after in
      let stops : take_authority s (some u) ≡ panic =
        take_authority-cut u (rw second at behind) (rw (text_at-end s (0 + i + 1), ← mid) double)
          (rw (← place) (sym (boundary-drop (suc i) 1 s) ∙ cut)) in
      rw (first, second) (rw stops refl)

pub whole-IsSplit :
    (s : Str)
    → IsText s
    → IsSplit s
        (whole s)
        (chunks_at (whole s) 1 s (find s (str ":"))).0
        (chunks_at (whole s) 1 s (find s (str ":"))).1
whole-IsSplit s t = rw (text_at-whole s) at (
    chunks_at-IsSplit s t (whole s) (whole-IsRange s) (str ":") (omega arith) (omega arith)
      (find s (str ":")) (ap (λ x. find x (str ":")) (text_at-whole s)))

pub try_from-Ensures :
    (s : Str)
    → utf8_error s ≡ none
    → cuts_char s ≡ false
    → Ensures (λ u. IsValid u × (u.inner ≡ s)) (try_from s)
try_from-Ensures s w n =
    let (t, c) = utf8_error-IsText s w in
    rw (try_from-after_scheme s) (
      after_scheme-Ensures s t c _ _ (whole-IsSplit s t)
        (λ r e. NoCut-after s (find s (str ":")) r n e))

pub try_from-cut : (s : Str) → utf8_error s ≡ none → cuts_char s ≡ true → try_from s ≡ panic
try_from-cut s w h = elim (Option-cases (find s (str ":"))) [
  | inl e ↦ absurd (ground arith)
  | inr (i, e) ↦
      let v = whole-IsSplit s (utf8_error-IsText s w).0 in
      try_from-after_scheme s ∙ rw e (cut-panics s i (rw e at h) (rw e at v))
]

-- On UTF-8 text `Uri::try_from` panics exactly if the text is cut inside a character: `:` stands
-- in it but not in front, `//` stands somewhere behind the first `:`, and the second byte behind
-- that `:` does not end a character.
pub try_from-eq-panic :
    (s : Str) → utf8_error s ≡ none → (try_from s ≡ panic) ↔ (cuts_char s ≡ true)
try_from-eq-panic s w = (
  λ p. elim (Bool-cases (cuts_char s)) [
    | inl h ↦ h
    | inr h ↦
        absurd (
          Ensures-ne-panic (λ u. IsValid u × (u.inner ≡ s)) (try_from s) (try_from-Ensures s w h) p)
  ],
  try_from-cut s w,
)

-- All ranges of a URI that `Uri::try_from` gives for UTF-8 text lie in that text, each with its start
-- not behind its end and both on character boundaries; so do those of its authority in the
-- authority's text, which begins three bytes behind the scheme, and its port is a number below 2^16.
pub try_from-IsValid :
    (s : Str) {u : Uri} → utf8_error s ≡ none → try_from s ≡ ok u → IsValid u × (u.inner ≡ s)
try_from-IsValid s {u} w e = elim (Bool-cases (cuts_char s)) [
  | inl h ↦ absurd (let p : ok u ≡ panic = sym e ∙ try_from-cut s w h in cc)
  | inr h ↦ Ensures-ok (λ u. IsValid u × (u.inner ≡ s)) (try_from s) (try_from-Ensures s w h) e
]
