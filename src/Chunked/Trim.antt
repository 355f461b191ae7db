-- ===== src/Chunked/Trim.antt =====
-- What `trim_trailing_whitespace` and `remove_chunk_extension` leave of a line.
use http_req.Prelude.{
  ℕ, zero, suc, ◌+◌, ◌-◌, ◌≤◌, ◌<◌, ◌≡◌, refl, ap, ◌∙◌, true, false, [], ◌∷◌, ◌++◌, length, drop,
  arith, length-append, take-append,
}
use http_req.Text.{Str}
use http_req.Text.Search.{Lacks, find-append, find-eq-none}
use http_req.Chunked.Line.{
  is_ascii_space, head_is_space, trim_from, trim_trailing_whitespace, remove_chunk_extension,
}

abbrev pub AreSpaces : Str → Type 0
AreSpaces [] = Unit
AreSpaces (c ∷ s) = (is_ascii_space c ≡ true) × AreSpaces s

-- The text does not end in white space.
abbrev pub EndsDark : Str → Type 0
EndsDark [] = Unit
EndsDark (c ∷ []) = is_ascii_space c ≡ false
EndsDark (c ∷ d ∷ s) = EndsDark (d ∷ s)

pub EndsDark-append : (s : Str) (c : ℕ) (e : Str) → EndsDark (c ∷ e) → EndsDark (s ++ (c ∷ e))
EndsDark-append [] c e h = h
EndsDark-append (x ∷ []) c e h = h
EndsDark-append (x ∷ y ∷ s) c e h = EndsDark-append (y ∷ s) c e h

drop-append_add : (xs ys : Str) (i : ℕ) → drop (length xs + i) (xs ++ ys) ≡ drop i ys
drop-append_add [] ys i = let e : 0 + i ≡ i = omega arith in ap (λ k. drop k ys) e
drop-append_add (x ∷ xs) ys i =
    let e : suc (length xs) + i ≡ suc (length xs + i) = omega arith in
    ap (λ k. drop k (x ∷ (xs ++ ys))) e ∙ drop-append_add xs ys i

space_at :
    (sp t : Str) (i : ℕ) → AreSpaces sp → i < length sp → head_is_space (drop i (sp ++ t)) ≡ true
space_at [] t i a h = absurd (omega arith)
space_at (c ∷ sp) t zero a h = a.0
space_at (c ∷ sp) t (suc i) a h = space_at sp t i a.1 (omega arith)

dark_at :
    (c : ℕ) (b w : Str) → EndsDark (c ∷ b) → head_is_space (drop (length b) ((c ∷ b) ++ w)) ≡ false
dark_at c [] w e = e
dark_at c (d ∷ b) w e = dark_at d b w e

module _ (b sp w : Str) (a : AreSpaces sp) where
  trim_spaces :
      (j : ℕ)
      → j ≤ length sp
      → trim_from (length b + j) (b ++ (sp ++ w)) ≡ trim_from (length b) (b ++ (sp ++ w))
  unfolding trim_from
  trim_spaces zero h = let e : length b + 0 ≡ length b = omega arith in rw e refl
  trim_spaces (suc j) h =
      let e : length b + suc j ≡ suc (length b + j) = omega arith in
      let space : head_is_space (drop (length b + j) (b ++ (sp ++ w))) ≡ true =
        ap head_is_space (drop-append_add b (sp ++ w) j) ∙ space_at sp w j a (omega arith) in
      rw e (rw (space, trim_from) (trim_spaces j (omega arith)))

trim_dark : (b w : Str) → EndsDark b → trim_from (length b) (b ++ w) ≡ b
unfolding trim_from
trim_dark [] w e = refl
trim_dark (c ∷ b) w e = rw (dark_at c b w e, trim_from) (take-append (c ∷ b) w)

-- Trailing white space goes, and with it the last byte of the line, whatever that is.
pub trim_trailing_whitespace_lem :
    (b sp : Str) (x : ℕ)
    → EndsDark b
    → AreSpaces sp
    → trim_trailing_whitespace (b ++ (sp ++ x ∷ [])) ≡ b
unfolding trim_trailing_whitespace
trim_trailing_whitespace_lem b sp x e a =
    let l : length (b ++ (sp ++ x ∷ [])) - 1 ≡ length b + length sp =
      omega (arith, length-append b (sp ++ x ∷ []), length-append sp (x ∷ [])) in
    rw l (trim_spaces b sp (x ∷ []) a (length sp) (omega arith) ∙ trim_dark b (sp ++ x ∷ []) e)

-- An extension goes with its semicolon.
pub remove_chunk_extension_lem :
    (s ext : Str) → Lacks b';' s → remove_chunk_extension (s ++ (b';' ∷ ext)) ≡ s
unfolding remove_chunk_extension
remove_chunk_extension_lem s ext l =
    rw (find-append b';' s ext l, remove_chunk_extension) (take-append s (b';' ∷ ext))

pub remove_chunk_extension-same : (s : Str) → Lacks b';' s → remove_chunk_extension s ≡ s
unfolding remove_chunk_extension
remove_chunk_extension-same s l = rw (find-eq-none b';' s l, remove_chunk_extension) refl
