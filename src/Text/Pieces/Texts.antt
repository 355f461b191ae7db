-- ===== src/Text/Pieces/Texts.antt =====
-- What `trim`, `lines` and `splitn` make of UTF-8 text is UTF-8 text.
use http_req.Prelude.{
  ℕ, zero, suc, ◌≡◌, refl, sym, ap, ◌∙◌, subst, List, [], ◌∷◌, ◌++◌, ◌==◌, length, drop,
  append_assoc, reverse, reverse-append, reverse-reverse, take-append, drop-append, Bool-cases,
  Option-cases, inl, inr,
}
use http_req.Text.{Str, find}
use http_req.Text.Slices.{IsText, IsText-take, IsText-drop}
use http_req.Text.White.{white_front, white_back, trim_with, trim_start, trim_end, trim}
use http_req.Text.Pieces.{splitn, strip_cr, lines_from, lines}

pub IsText-front : (s t : Str) → IsText (s ++ t) → IsText s
IsText-front s t h = subst IsText (take-append s t) (IsText-take (length s) (s ++ t) h)

pub IsText-back : (s t : Str) → IsText (s ++ t) → IsText t
IsText-back s t h = subst IsText (drop-append s t) (IsText-drop (length s) (s ++ t) h)

-- What is left by dropping white space in front is an end of the text.
trim_with-suffix : (white : Str → ℕ) (k : ℕ) (s : Str) → (x : Str) × (s ≡ x ++ trim_with white k s)
unfolding trim_with
trim_with-suffix white k [] = ([], refl)
trim_with-suffix white (suc k) (c ∷ s) =
    let (x, e) = trim_with-suffix white k s in (c ∷ x, ap (λ w. c ∷ w) e)
trim_with-suffix white zero (c ∷ s) = go (white (c ∷ s)) refl (λ k. trim_with-suffix white k s)
  where
    go :
        (n : ℕ)
        → white (c ∷ s) ≡ n
        → ((k : ℕ) → (x : Str) × (s ≡ x ++ trim_with white k s))
        → (x : Str) × (c ∷ s ≡ x ++ trim_with white zero (c ∷ s))
    go zero e rest = ([], rw (e, trim_with) refl)
    go (suc k) e rest = let (x, e') = rest k in (c ∷ x, rw (e, trim_with) (ap (λ w. c ∷ w) e'))

pub trim-IsText : (s : Str) → IsText s → IsText (trim s)
unfolding trim trim_start trim_end
trim-IsText s h =
    let front : Str = trim_with white_front 0 s in
    let (x, e) = trim_with-suffix white_front 0 s in
    let h' : IsText front = IsText-back x front (rw e at h) in
    let kept : Str = trim_with white_back 0 (reverse front) in
    let (y, e') = trim_with-suffix white_back 0 (reverse front) in
    let cut : front ≡ reverse kept ++ reverse y =
      sym (reverse-reverse front) ∙ ap reverse e' ∙ reverse-append y kept in
    IsText-front (reverse kept) (reverse y) (rw cut at h')

abbrev pub AreTexts : List Str → Type 0
AreTexts [] = Unit
AreTexts (s ∷ ss) = IsText s × AreTexts ss

strip_cr-prefix : (s : Str) → (x : Str) × (s ≡ strip_cr s ++ x)
unfolding strip_cr
strip_cr-prefix [] = ([], refl)
strip_cr-prefix (c ∷ []) = elim (Bool-cases (c == b'\r')) [
  | inl e ↦ (c ∷ [], rw e refl)
  | inr e ↦ ([], rw e refl)
]
strip_cr-prefix (c ∷ d ∷ s) = let (x, e) = strip_cr-prefix (d ∷ s) in (x, ap (λ w. c ∷ w) e)

strip_cr-IsText : (s : Str) → IsText s → IsText (strip_cr s)
strip_cr-IsText s h = let (x, e) = strip_cr-prefix s in IsText-front (strip_cr s) x (rw e at h)

lines_from-AreTexts : (line s : Str) → IsText (line ++ s) → AreTexts (lines_from line s)
unfolding lines_from
lines_from-AreTexts [] [] h = tt
lines_from-AreTexts (c ∷ line) [] h = (IsText-front (c ∷ line) [] h, tt)
lines_from-AreTexts line (c ∷ s) h = elim (Bool-cases (c == b'\n')) [
  | inl e ↦
      rw (e, AreTexts)
        (
          strip_cr-IsText line (IsText-front line (c ∷ s) h),
          lines_from-AreTexts [] s (IsText-back line (c ∷ s) h).1,
        )
  | inr e ↦
      rw (e, AreTexts)
        (lines_from-AreTexts (line ++ c ∷ []) s
          (subst IsText (sym (append_assoc line (c ∷ []) s)) h))
]

pub lines-AreTexts : (s : Str) → IsText s → AreTexts (lines s)
unfolding lines
lines-AreTexts s h = lines_from-AreTexts [] s h

pub splitn-AreTexts : (n sep : ℕ) (s : Str) → IsText s → AreTexts (splitn n sep s)
unfolding splitn
splitn-AreTexts zero sep s h = tt
splitn-AreTexts (suc zero) sep s h = (h, tt)
splitn-AreTexts (suc (suc n)) sep s h = elim (Option-cases (find s (sep ∷ []))) [
  | inl e ↦ rw (e, AreTexts) (h, tt)
  | inr (i, e) ↦
      rw (e, AreTexts)
        (IsText-take i s h, splitn-AreTexts (suc n) sep (drop (suc i) s) (IsText-drop (suc i) s h))
]
