-- ===== src/Text/Search.antt =====
-- Laws of `find` and `starts_with`.
use http_req.Prelude.{
  ℕ, zero, suc, ◌≤◌, ◌<◌, ◌≡◌, refl, Bool, true, false, none, some, [], ◌∷◌, ◌++◌, arith, ◌==◌,
  take, drop, length, &&-eq-true, ◌&&◌, not,
}
use http_req.Text.{Str, str_eq, starts_with, find, contains}

pub str_eq→eq : (s t : Str) → str_eq s t ≡ true → s ≡ t
unfolding str_eq
str_eq→eq [] [] h = refl
str_eq→eq (a ∷ s) (b ∷ t) h = ground (arith, str_eq→eq s t)
str_eq→eq _ _ h = cc

pub str_eq_refl : (s : Str) → str_eq s s ≡ true
unfolding str_eq
str_eq_refl [] = refl
str_eq_refl (a ∷ s) = ground (arith, str_eq_refl s)

pub starts_with-append : (pat s : Str) → starts_with (pat ++ s) pat ≡ true
unfolding starts_with
starts_with-append [] s = refl
starts_with-append (a ∷ pat) s = ground (arith, starts_with-append pat s)

pub length-starts_with : (s pat : Str) → starts_with s pat ≡ true → length pat ≤ length s
unfolding starts_with
length-starts_with s [] h = omega arith
length-starts_with [] (b ∷ pat) h = cc
length-starts_with (a ∷ s) (b ∷ pat) h =
    let (_, h') = &&-eq-true (a == b) (starts_with s pat) h in
    omega (arith, length-starts_with s pat h')

-- A match inside a piece of a text is a match in the text, and lies in the piece.
pub starts_with-take :
    (n : ℕ) (s pat : Str)
    → starts_with (take n s) pat ≡ true
    → (starts_with s pat ≡ true) × (length pat ≤ n)
unfolding starts_with
starts_with-take n s [] h = (refl, omega arith)
starts_with-take zero s (b ∷ pat) h = cc
starts_with-take (suc n) [] (b ∷ pat) h = cc
starts_with-take (suc n) (a ∷ s) (b ∷ pat) h =
    let (e, h') = &&-eq-true (a == b) (starts_with (take n s) pat) h in
    let (k, l) = starts_with-take n s pat h' in (rw (e, k) refl, omega arith)

pub find-starts_with :
    (s pat : Str) {i : ℕ}
    → find s pat ≡ some i
    → (starts_with (drop i s) pat ≡ true) × (i ≤ length s)
unfolding find
find-starts_with [] pat {i = zero} h = (ground arith, omega arith)
find-starts_with [] pat {i = suc i} h = ground arith
find-starts_with (a ∷ s) pat {i = zero} h = (ground arith, omega arith)
find-starts_with (a ∷ s) pat {i = suc i} h =
    let (k, l) = find-starts_with s pat {i = i} (ground arith) in (k, omega arith)

-- No match stands in front of the first one.
pub find-first :
    (s pat : Str) {i : ℕ} (j : ℕ) → find s pat ≡ some i → j < i → starts_with (drop j s) pat ≡ false
unfolding find
find-first [] pat j h l = ground arith
find-first (a ∷ s) pat {i = zero} j h l = absurd (omega arith)
find-first (a ∷ s) pat {i = suc i} zero h l = ground arith
find-first (a ∷ s) pat {i = suc i} (suc j) h l =
    find-first s pat {i = i} j (ground arith) (omega arith)

-- No byte of `s` is `c`.
abbrev pub Lacks : ℕ → Str → Type 0
Lacks c [] = Unit
Lacks c (a ∷ s) = ((a == c) ≡ false) × Lacks c s

pub find-append : (c : ℕ) (s t : Str) → Lacks c s → find (s ++ (c ∷ t)) (c ∷ []) ≡ some (length s)
unfolding find
find-append c [] t h = ground arith
find-append c (a ∷ s) t h = ground (arith, find-append c s t h.1)

pub find-eq-none : (c : ℕ) (s : Str) → Lacks c s → find s (c ∷ []) ≡ none
unfolding find
find-eq-none c [] h = refl
find-eq-none c (a ∷ s) h = ground (arith, find-eq-none c s h.1)

pub contains-append : (c : ℕ) (s t : Str) → contains (s ++ (c ∷ t)) (c ∷ []) ≡ true
unfolding contains find
contains-append c [] t = ground arith
contains-append c (a ∷ s) t = ground (arith, contains-append c s t)

pub contains-eq-false : (c : ℕ) (s : Str) → Lacks c s → contains s (c ∷ []) ≡ false
unfolding contains
contains-eq-false c s h = rw (find-eq-none c s h) refl

pub Lacks-append : (c : ℕ) (s t : Str) → Lacks c s → Lacks c t → Lacks c (s ++ t)
Lacks-append c [] t h k = k
Lacks-append c (a ∷ s) t h k = (h.0, Lacks-append c s t h.1 k)

abbrev pub lacks : ℕ → Str → Bool
lacks c [] = true
lacks c (a ∷ s) = not (a == c) && lacks c s

pub lacks→Lacks : (c : ℕ) (s : Str) → lacks c s ≡ true → Lacks c s
lacks→Lacks c [] h = tt
lacks→Lacks c (a ∷ s) h =
    let (k, l) = &&-eq-true (not (a == c)) (lacks c s) h in (ground arith, lacks→Lacks c s l)
