-- ===== src/Text/White/Laws.antt =====
-- What `trim` leaves of a text whose first and last characters are visible ASCII characters.
use http_req.Prelude.{
  ℕ, ◌≤◌, ◌<◌, ◌≡◌, refl, sym, ap, ◌∙◌, true, [], ◌∷◌, ◌++◌, arith, reverse, reverse-append,
  reverse-reverse,
}
use http_req.Text.{Str}
use http_req.Text.White.{
  is_ascii_white, white_front, white_back, trim_with, trim_start, trim_end, trim,
}

abbrev pub Dark : ℕ → Type 0
Dark c = (33 ≤ c) × (c < 127)

abbrev pub AreWhite : Str → Type 0
AreWhite [] = Unit
AreWhite (c ∷ s) = (is_ascii_white c ≡ true) × AreWhite s

pub AreWhite-append : (s t : Str) → AreWhite s → AreWhite t → AreWhite (s ++ t)
AreWhite-append [] t h k = k
AreWhite-append (c ∷ s) t h k = (h.0, AreWhite-append s t h.1 k)

white_front-Dark : (c : ℕ) (s : Str) → Dark c → white_front (c ∷ s) ≡ 0
unfolding white_front is_ascii_white
white_front-Dark c [] d = ground arith
white_front-Dark c (b ∷ []) d = ground arith
white_front-Dark c (b ∷ e ∷ s) d = ground arith

white_front_white : (c : ℕ) (s : Str) → is_ascii_white c ≡ true → white_front (c ∷ s) ≡ 1
unfolding white_front
white_front_white c [] h = rw h refl
white_front_white c (b ∷ []) h = rw h refl
white_front_white c (b ∷ e ∷ s) h = rw h refl

white_back-Dark : (c : ℕ) (s : Str) → Dark c → white_back (c ∷ s) ≡ 0
unfolding white_back is_ascii_white
white_back-Dark c [] d = ground arith
white_back-Dark c (b ∷ []) d = ground arith
white_back-Dark c (b ∷ e ∷ s) d = ground arith

white_back_white : (c : ℕ) (s : Str) → is_ascii_white c ≡ true → white_back (c ∷ s) ≡ 1
unfolding white_back
white_back_white c [] h = rw h refl
white_back_white c (b ∷ []) h = rw h refl
white_back_white c (b ∷ e ∷ s) h = rw h refl

module _ (white : Str → ℕ) where
  trim_with_one :
      (c : ℕ) (s : Str) → white (c ∷ s) ≡ 1 → trim_with white 0 (c ∷ s) ≡ trim_with white 0 s
  unfolding trim_with
  trim_with_one c s h = rw (h, trim_with) refl

  trim_with_none : (c : ℕ) (s : Str) → white (c ∷ s) ≡ 0 → trim_with white 0 (c ∷ s) ≡ c ∷ s
  unfolding trim_with
  trim_with_none c s h = rw (h, trim_with) refl

-- White space in front of a visible character goes, and white space behind one.
pub trim_start_lem :
    (ws : Str) (c : ℕ) (s : Str) → AreWhite ws → Dark c → trim_start (ws ++ (c ∷ s)) ≡ c ∷ s
unfolding trim_start
trim_start_lem [] c s a d = trim_with_none white_front c s (white_front-Dark c s d)
trim_start_lem (w ∷ ws) c s a d =
    trim_with_one white_front w (ws ++ (c ∷ s)) (white_front_white w (ws ++ (c ∷ s)) a.0)
    ∙ trim_start_lem ws c s a.1 d

trim_back :
    (ws : Str) (c : ℕ) (s : Str)
    → AreWhite ws
    → Dark c
    → trim_with white_back 0 (ws ++ (c ∷ s)) ≡ c ∷ s
trim_back [] c s a d = trim_with_none white_back c s (white_back-Dark c s d)
trim_back (w ∷ ws) c s a d =
    trim_with_one white_back w (ws ++ (c ∷ s)) (white_back_white w (ws ++ (c ∷ s)) a.0)
    ∙ trim_back ws c s a.1 d

pub trim_end_lem :
    (s : Str) (c : ℕ) (ws : Str)
    → Dark c
    → AreWhite (reverse ws)
    → trim_end ((s ++ c ∷ []) ++ ws) ≡ s ++ c ∷ []
unfolding trim_end
trim_end_lem s c ws d a =
    let turned : reverse ((s ++ c ∷ []) ++ ws) ≡ reverse ws ++ (c ∷ reverse s) =
      reverse-append (s ++ c ∷ []) ws ∙ ap (λ x. reverse ws ++ x) (reverse-append s (c ∷ [])) in
    ap (λ x. reverse (trim_with white_back 0 x)) turned
    ∙ ap reverse (trim_back (reverse ws) c (reverse s) a d)
    ∙ ap reverse (sym (reverse-append s (c ∷ [])))
    ∙ reverse-reverse (s ++ c ∷ [])

-- A text that starts and ends with a visible character.
pub data Visible : Str → Type 0 where
  one : {s : Str} (c : ℕ) → Dark c → s ≡ c ∷ [] → Visible s
  more : {s : Str} (b : ℕ) (m : Str) (c : ℕ) → Dark b → Dark c → s ≡ b ∷ (m ++ c ∷ []) → Visible s

-- `trim` takes the white space around such a text away, and no more.
pub trim_lem :
    (ws s ws' : Str)
    → AreWhite ws
    → AreWhite (reverse ws')
    → Visible s
    → trim (ws ++ (s ++ ws')) ≡ s
unfolding trim
trim_lem ws s ws' a a' (one c d e) =
    rw e (ap trim_end (trim_start_lem ws c ws' a d) ∙ trim_end_lem [] c ws' d a')
trim_lem ws s ws' a a' (more b m c d d' e) = rw e (
    ap trim_end (trim_start_lem ws b ((m ++ c ∷ []) ++ ws') a d) ∙ trim_end_lem (b ∷ m) c ws' d' a')
