-- ===== src/Text/Slices.antt =====
-- Character boundaries and slices.
use http_req.Prelude.{
  ℕ, zero, suc, ◌+◌, ◌≤◌, ◌<◌, ◌≡◌, refl, ◌∙◌, ap, true, [], ◌∷◌, arith, ◌==◌, take, drop, length,
  &&-eq-true,
}
use http_req.Text.{Str, starts_char, starts_with, is_char_boundary}

-- After an ASCII byte no character goes on, as in every UTF-8 text.
abbrev pub IsText : Str → Type 0
IsText [] = Unit
IsText (c ∷ s) = (c < 128 → starts_char s ≡ true) × IsText s

abbrev pub IsAscii : Str → Type 0
IsAscii [] = Unit
IsAscii (c ∷ s) = (c < 128) × IsAscii s

pub IsAscii→IsText : (s : Str) → IsAscii s → IsText s
IsAscii→IsText [] h = tt
IsAscii→IsText (c ∷ []) h = (λ _. refl, tt)
IsAscii→IsText (c ∷ d ∷ s) h = (λ _. ground arith, IsAscii→IsText (d ∷ s) h.1)

pub IsAscii-starts_char : (s : Str) → IsAscii s → starts_char s ≡ true
IsAscii-starts_char [] h = refl
IsAscii-starts_char (c ∷ s) h = ground arith

pub IsText-drop : (n : ℕ) (s : Str) → IsText s → IsText (drop n s)
IsText-drop zero s h = h
IsText-drop (suc n) [] h = tt
IsText-drop (suc n) (c ∷ s) h = IsText-drop n s h.1

pub IsAscii-drop : (n : ℕ) (s : Str) → IsAscii s → IsAscii (drop n s)
IsAscii-drop zero s h = h
IsAscii-drop (suc n) [] h = tt
IsAscii-drop (suc n) (c ∷ s) h = IsAscii-drop n s h.1

pub IsAscii-take : (n : ℕ) (s : Str) → IsAscii s → IsAscii (take n s)
IsAscii-take zero s h = tt
IsAscii-take (suc n) [] h = tt
IsAscii-take (suc n) (c ∷ s) h = (h.0, IsAscii-take n s h.1)

pub IsText-take : (n : ℕ) (s : Str) → IsText s → IsText (take n s)
IsText-take zero s h = tt
IsText-take (suc n) [] h = tt
IsText-take (suc zero) (c ∷ s) h = (λ _. refl, tt)
IsText-take (suc (suc n)) (c ∷ []) h = (λ _. refl, tt)
IsText-take (suc (suc n)) (c ∷ d ∷ s) h = (h.0, IsText-take (suc n) (d ∷ s) h.1)

pub boundary-le-length : (s : Str) (i : ℕ) → is_char_boundary s i ≡ true → i ≤ length s
unfolding is_char_boundary
boundary-le-length s zero h = omega arith
boundary-le-length [] (suc i) h = cc
boundary-le-length (c ∷ s) (suc zero) h = omega arith
boundary-le-length (c ∷ s) (suc (suc i)) h = omega (arith, boundary-le-length s (suc i) h)

pub boundary_of_drop :
    (s : Str) (i : ℕ) → i ≤ length s → starts_char (drop i s) ≡ true → is_char_boundary s i ≡ true
unfolding is_char_boundary
boundary_of_drop s zero l h = refl
boundary_of_drop [] (suc i) l h = absurd (omega arith)
boundary_of_drop (c ∷ s) (suc zero) l h = h
boundary_of_drop (c ∷ s) (suc (suc i)) l h = boundary_of_drop s (suc i) (omega arith) h

starts_char_of_suc_boundary :
    (s : Str) (i : ℕ) → is_char_boundary s (suc i) ≡ true → starts_char (drop (suc i) s) ≡ true
unfolding is_char_boundary
starts_char_of_suc_boundary [] i h = refl
starts_char_of_suc_boundary (c ∷ s) zero h = h
starts_char_of_suc_boundary (c ∷ s) (suc i) h = starts_char_of_suc_boundary s i h

pub starts_char_of_boundary :
    (s : Str) (i : ℕ)
    → starts_char s ≡ true
    → is_char_boundary s i ≡ true
    → starts_char (drop i s) ≡ true
starts_char_of_boundary s zero c h = c
starts_char_of_boundary s (suc i) c h = starts_char_of_suc_boundary s i h

-- Behind each byte of an ASCII match, and in front of the match, a character starts.
pub starts_char_of_match :
    (s pat : Str) (k : ℕ)
    → IsText s
    → IsAscii pat
    → starts_with s pat ≡ true
    → 0 < length pat
    → k ≤ length pat
    → starts_char (drop k s) ≡ true
unfolding starts_with
starts_char_of_match s [] k t a h p l = absurd (omega arith)
starts_char_of_match [] (b ∷ pat) k t a h p l = cc
starts_char_of_match (c ∷ s) (b ∷ pat) zero t a h p l = ground arith
starts_char_of_match (c ∷ s) (b ∷ []) (suc k) t a h p l =
    let e : k ≡ 0 = omega arith in rw e (t.0 (ground arith))
starts_char_of_match (c ∷ s) (b ∷ d ∷ pat) (suc k) t a h p l =
    let (_, h') = &&-eq-true (c == b) (starts_with s (d ∷ pat)) h in
    starts_char_of_match s (d ∷ pat) k t.1 a.1 h' (omega arith) (omega arith)

pub starts_char-take : (n : ℕ) (s : Str) → starts_char s ≡ true → starts_char (take n s) ≡ true
starts_char-take zero s h = refl
starts_char-take (suc n) [] h = refl
starts_char-take (suc n) (c ∷ s) h = h

pub boundary-drop :
    (n i : ℕ) (s : Str) → is_char_boundary (drop n s) (suc i) ≡ is_char_boundary s (n + suc i)
unfolding is_char_boundary
boundary-drop zero i s = let e : suc i ≡ 0 + suc i = omega arith in ap (is_char_boundary s) e
boundary-drop (suc n) i [] =
    let e : suc (n + suc i) ≡ suc n + suc i = omega arith in
    let none_left : (k : ℕ) → is_char_boundary [] (suc i) ≡ is_char_boundary [] (suc k) =
      λ k. refl in
    none_left (n + suc i) ∙ ap (is_char_boundary []) e
boundary-drop (suc n) i (c ∷ s) =
    let e : suc (suc (n + i)) ≡ suc n + suc i = omega arith in
    let k : n + suc i ≡ suc (n + i) = omega arith in
    boundary-drop n i s ∙ rw k (ap (is_char_boundary (c ∷ s)) e)
