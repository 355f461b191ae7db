-- ===== src/Uri/Hidden.antt =====
-- What `Display` writes for a valid URI: its text, with asterisks for the password.
use http_req.Prelude.{
  ℕ, ◌+◌, ◌-◌, ◌≤◌, ◌≡◌, refl, sym, ap, ◌∙◌, ◌≡⟨◌⟩◌, ◌∎, Option, none, some, ◌++◌, arith, length,
  take, drop, le→leb, replicate, take-add, drop-append_le, take-append-drop, take-take,
  append_assoc, drop-drop, length-take, length-drop, length-append, length-replicate,
}
use http_req.Text.{Str, replace_range}
use http_req.Text.Slices.{boundary-le-length}
use http_req.Uri.{RangeC, range_c, Authority, Uri}
use http_req.Uri.Access
use http_req.Uri.Auth
use http_req.Uri.Chunks.{IsRange}
use http_req.Uri.Valid.{IsAt, AuthAt}
use http_req.Error.{ok}
use http_req.Uri.Parse.{try_from}
use http_req.Uri.Panics.{try_from-IsValid}
use http_req.Text.Utf8.{utf8_error}

replace_range-IsRange :
    (s : Str) (r : RangeC) (t : Str)
    → IsRange s r
    → replace_range s r.start r.end t ≡ some (take r.start s ++ (t ++ drop r.end s))
unfolding replace_range
replace_range-IsRange s r t v = rw (le→leb r.start r.end v.ordered, v.start_at, v.end_at) refl

-- The text with `n` bytes from `k` on replaced by asterisks.
abbrev pub masked : Str → ℕ → ℕ → Str
masked s k n = take k s ++ (replicate n b'*' ++ drop (k + n) s)

module _ (s : Str) (st len : ℕ) (fits : st + len ≤ length s) where
  abbrev inside : Str
  inside = take len (drop st s)

  take-inside : (k : ℕ) → k ≤ len → take st s ++ take k inside ≡ take (st + k) s
  take-inside k h = ap (λ x. take st s ++ x) (take-take k len (drop st s) h) ∙ sym (take-add st k s)

  drop-inside : (k : ℕ) → k ≤ len → drop k inside ++ drop (st + len) s ≡ drop (st + k) s
  drop-inside k h =
      ap (λ x. drop k inside ++ x) (sym (drop-drop len st s))
      ∙ sym (
          drop-append_le k inside (drop len (drop st s))
            (omega (arith, length-take len (drop st s), length-drop st s)))
      ∙ ap (drop k) (take-append-drop len (drop st s))
      ∙ drop-drop k st s

  -- Masking a piece inside a piece of a text.
  masked-inside :
      (k n : ℕ)
      → k + n ≤ len
      → take st s ++ (masked inside k n ++ drop (st + len) s) ≡ masked s (st + k) n
  masked-inside k n h =
      let e : st + (k + n) ≡ st + k + n = omega arith in
      take st s ++ (masked inside k n ++ drop (st + len) s)
      ≡⟨ (simp append_assoc) ⟩
        (take st s ++ take k inside)
        ++ (replicate n b'*' ++ (drop (k + n) inside ++ drop (st + len) s))
      ≡⟨ ap (λ x. x ++ (replicate n b'*' ++ (drop (k + n) inside ++ drop (st + len) s)))
          (take-inside k (omega arith)) ⟩
        take (st + k) s ++ (replicate n b'*' ++ (drop (k + n) inside ++ drop (st + len) s))
      ≡⟨ ap (λ x. take (st + k) s ++ (replicate n b'*' ++ x))
          (drop-inside (k + n) h ∙ ap (λ m. drop m s) e) ⟩
        masked s (st + k) n ∎

display_auth :
    (a : Authority) (p : RangeC)
    → IsRange a.inner p
    → Auth.hide_in a.inner (some p) ≡ some (masked a.inner p.start (p.end - p.start))
unfolding Auth.hide_in
display_auth a p v =
    let e : p.end ≡ p.start + (p.end - p.start) = omega (arith, v.ordered) in
    replace_range-IsRange a.inner p (replicate (p.end - p.start) b'*') v
    ∙ ap (λ m. some (take p.start a.inner ++ (replicate (p.end - p.start) b'*' ++ drop m a.inner)))
        e

length-masked : (s : Str) (k n : ℕ) → k + n ≤ length s → length (masked s k n) ≡ length s
length-masked s k n h = omega (
  arith,
  length-append (take k s) (replicate n b'*' ++ drop (k + n) s),
  length-append (replicate n b'*') (drop (k + n) s),
  length-take k s,
  length-drop (k + n) s,
  length-replicate {A = ℕ} n b'*',
)

module _ (s : Str) (scheme : RangeC) (a : Authority) (v : IsAt s (scheme.end + 3) a) where
  abbrev start : ℕ
  start = scheme.end + 3

  inner-inside : take (length a.inner) (drop start s) ≡ a.inner
  inner-inside =
      let e : start + length a.inner - start ≡ length a.inner = omega arith in rw e at v.text

  fits : start + length a.inner ≤ length s
  fits = boundary-le-length s (start + length a.inner) v.range.end_at

  display_in-masked :
      (p : RangeC)
      → a.password ≡ some p
      → IsRange a.inner p
      → Access.display_in s scheme (some a) ≡ some (masked s (start + p.start) (p.end - p.start))
  unfolding Access.display_in Auth.display
  display_in-masked p e k =
      let le : p.end ≤ length a.inner = boundary-le-length a.inner p.end k.end_at in
      let within : p.start + (p.end - p.start) ≤ length a.inner = omega (arith, k.ordered) in
      let m : Str = masked a.inner p.start (p.end - p.start) in
      let same : length m ≡ length a.inner =
        length-masked a.inner p.start (p.end - p.start) within in
      let place : take start s ++ (m ++ drop (start + length a.inner) s)
          ≡ masked s (start + p.start) (p.end - p.start) =
        rw inner-inside at
          (masked-inside s start (length a.inner) fits p.start (p.end - p.start) within) in
      rw (e, display_auth a p k, same)
        (replace_range-IsRange s (range_c start (start + length a.inner)) m v.range ∙ ap some place)

  display_in-same : a.password ≡ none → Access.display_in s scheme (some a) ≡ some s
  unfolding Access.display_in Auth.display Auth.hide_in
  display_in-same e = rw e (
      replace_range-IsRange s (range_c start (start + length a.inner)) a.inner v.range
      ∙ ap some whole)
    where
      whole : take start s ++ (a.inner ++ drop (start + length a.inner) s) ≡ s
      whole =
          ap (λ x. take start s ++ x)
            (ap (λ x. x ++ drop (start + length a.inner) s) (sym inner-inside)
              ∙ ap (λ x. take (length a.inner) (drop start s) ++ x)
                  (sym (drop-drop (length a.inner) start s))
              ∙ take-append-drop (length a.inner) (drop start s))
          ∙ take-append-drop start s

-- `Display` of a URI whose authority has a password writes the text of the URI, with an asterisk
-- for each byte of the password, wherever it stands; nothing else changes.
pub display-masked :
    (s : Str) {u : Uri} {a : Authority} {p : RangeC}
    → utf8_error s ≡ none
    → try_from s ≡ ok u
    → u.authority ≡ some a
    → a.password ≡ some p
    → Access.display u ≡ some (masked s (u.scheme.end + 3 + p.start) (p.end - p.start))
unfolding Access.display
display-masked s {u} {a} {p} w e f g =
    let (v, same) = try_from-IsValid s w e in
    let at : IsAt u.inner (u.scheme.end + 3) a = rw f at v.authority in
    let k : IsRange a.inner p = rw g at at.valid.password in
    rw f (display_in-masked u.inner u.scheme a at p g k)
    ∙ ap (λ x. some (masked x (u.scheme.end + 3 + p.start) (p.end - p.start))) same

-- Without a password `Display` writes the text that was parsed.
pub display-same :
    (s : Str) {u : Uri}
    → utf8_error s ≡ none
    → try_from s ≡ ok u
    → ((a : Authority) → u.authority ≡ some a → a.password ≡ none)
    → Access.display u ≡ some s
unfolding Access.display
display-same s {u} w e n =
    let (v, same) = try_from-IsValid s w e in go u.authority refl v.authority ∙ ap some same
  where
    go :
        (o : Option Authority)
        → u.authority ≡ o
        → AuthAt u.inner (u.scheme.end + 3) o
        → Access.display_in u.inner u.scheme o ≡ some u.inner
    go none f h = unfold Access.display_in in refl
    go (some a) f h = display_in-same u.inner u.scheme a h (n a f)
