-- ===== src/Response/Find/Laws.antt =====
-- `find_slice` against `str::find`.
use mathlib.Core.Option as Option
use http_req.Prelude.{
  ltb→lt, ltb, ℕ, zero, suc, ◌+◌, ◌-◌, ◌<◌, ◌≡◌, refl, sym, ap, ◌∙◌, true, false, Option, none,
  some, [], ◌∷◌, ◌++◌, if◌then◌else◌, lt→ltb, Bool-cases, inl, inr, length, take, drop, arith,
  append_assoc, length-append, drop-append,
}
use http_req.Text.{Str, str_eq, starts_with, find}
use http_req.Response.Find.{scan, find_slice}

str_eq-take : (s e : Str) → str_eq (take (length e) s) e ≡ starts_with s e
unfolding str_eq starts_with
str_eq-take s [] = refl
str_eq-take [] (b ∷ e) = refl
str_eq-take (a ∷ s) (b ∷ e) = rw (str_eq-take s e) refl

starts_with_short : (s e : Str) → length s < length e → starts_with s e ≡ false
unfolding starts_with
starts_with_short s [] h = absurd (omega arith)
starts_with_short [] (b ∷ e) h = refl
starts_with_short (a ∷ s) (b ∷ e) h = ground (arith, starts_with_short s e)

find_short : (s e : Str) → length s < length e → find s e ≡ none
unfolding find
find_short [] e h = ground (arith, starts_with_short [] e h)
find_short (a ∷ s) e h = ground (arith, starts_with_short (a ∷ s) e h, find_short s e)

-- The end of a match from its start.
abbrev pub shift : ℕ → Option ℕ → Option ℕ
shift k none = none
shift k (some j) = some (k + j)

shift-suc : (k : ℕ) (o : Option ℕ) → shift (suc k) o ≡ shift k (Option.map suc o)
shift-suc k none = refl
shift-suc k (some j) = ap some (omega arith)

find_hit : (s e : Str) → starts_with s e ≡ true → find s e ≡ some 0
unfolding find
find_hit [] e h = rw h refl
find_hit (a ∷ s) e h = rw h refl

find_miss :
    (a : ℕ) (s e : Str) → starts_with (a ∷ s) e ≡ false → find (a ∷ s) e ≡ Option.map suc (find s e)
unfolding find
find_miss a s e h = rw h refl

scan_hit :
    (count i : ℕ) (bytes e : Str)
    → str_eq (take (length e) (drop i bytes)) e ≡ true
    → scan (suc count) i bytes e ≡ some (i + length e)
unfolding scan
scan_hit count i bytes e h = rw h refl

scan_miss :
    (count i : ℕ) (bytes e : Str)
    → str_eq (take (length e) (drop i bytes)) e ≡ false
    → scan (suc count) i bytes e ≡ scan count (suc i) bytes e
unfolding scan
scan_miss count i bytes e h = rw h refl

abbrev ScanAt : ℕ → Type 0
ScanAt count =
    (pre s e : Str)
    → suc (length s) ≡ count + length e
    → scan count (length pre) (pre ++ s) e ≡ shift (length pre + length e) (find s e)

scan_next :
    (count : ℕ)
    → ScanAt count
    → (pre s e : Str) → suc (length s) ≡ suc count + length e
    → starts_with s e ≡ false
    → scan count (suc (length pre)) (pre ++ s) e ≡ shift (length pre + length e) (find s e)
unfolding starts_with
scan_next count ih pre [] [] h n = absurd (let z : true ≡ false = n in cc)
scan_next count ih pre [] (b ∷ e) h n = absurd (omega (arith, h))
scan_next count ih pre (a ∷ s) e h n =
    let next = ih (pre ++ a ∷ []) s e (omega (arith, h)) in
    let size : length (pre ++ a ∷ []) ≡ suc (length pre) =
      length-append pre (a ∷ []) ∙ omega arith in
    ap (λ k. scan count k (pre ++ a ∷ s) e) (sym size)
    ∙ ap (λ x. scan count (length (pre ++ a ∷ [])) x e) (sym (append_assoc pre (a ∷ []) s))
    ∙ next
    ∙ ap (λ k. shift (k + length e) (find s e)) size
    ∙ ap (λ k. shift k (find s e)) (omega arith)
    ∙ shift-suc (length pre + length e) (find s e)
    ∙ sym (ap (shift (length pre + length e)) (find_miss a s e n))

scan-find : (count : ℕ) → ScanAt count
unfolding scan
scan-find zero pre s e h = rw (find_short s e (omega (arith, h))) refl
scan-find (suc count) pre s e h =
    let here : str_eq (take (length e) (drop (length pre) (pre ++ s))) e ≡ starts_with s e =
      rw (drop-append pre s) (str_eq-take s e) in
    elim (Bool-cases (starts_with s e)) [
      | inl y ↦
          scan_hit count (length pre) (pre ++ s) e (here ∙ y)
          ∙ ap some (omega arith)
          ∙ sym (ap (shift (length pre + length e)) (find_hit s e y))
      | inr n ↦
          scan_miss count (length pre) (pre ++ s) e (here ∙ n)
          ∙ scan_next count (scan-find count) pre s e h n
    ]

-- `find_slice` gives the end of the first match, the one that `str::find` finds, if the bytes are
-- longer than the pattern. If they are not it gives nothing, also where the bytes are the pattern.
pub find_slice_lem :
    (bytes e : Str)
    → find_slice bytes e
      ≡ (if ltb (length e) (length bytes) then shift (length e) (find bytes e) else none)
unfolding find_slice
find_slice_lem bytes e = elim (Bool-cases (ltb (length e) (length bytes))) [
  | inl t ↦ rw t (
      scan-find (suc (length bytes - length e)) [] bytes e
        (omega (arith, ltb→lt (length e) (length bytes) t))
      ∙ ap (λ k. shift k (find bytes e)) (omega arith))
  | inr f ↦ rw f refl
]

pub find_slice-longer :
    (bytes e : Str) → length e < length bytes → find_slice bytes e ≡ shift (length e) (find bytes e)
find_slice-longer bytes e l =
    find_slice_lem bytes e
    ∙ ap (λ b. if b then shift (length e) (find bytes e) else none)
        (lt→ltb (length e) (length bytes) l)
