-- ===== src/Text/Pieces/Laws.antt =====
-- `lines` of lines that are written one after the other, and `splitn` at the first separators.
use http_req.Prelude.{
  ℕ, suc, ◌≡◌, refl, sym, ap, ◌∙◌, false, [], ◌∷◌, ◌++◌, ◌==◌, drop, length, append_assoc,
  append-nil, take-append, drop-append_suc,
}
use http_req.Text.{Str}
use http_req.Text.Search.{Lacks, Lacks-append, find-append}
use http_req.Text.Pieces.{splitn, strip_cr, lines_from, lines}

strip_cr-append : (s : Str) → strip_cr (s ++ b'\r' ∷ []) ≡ s
unfolding strip_cr
strip_cr-append [] = refl
strip_cr-append (a ∷ []) = refl
strip_cr-append (a ∷ b ∷ s) = rw (strip_cr-append (b ∷ s)) refl

lines_step :
    (line : Str) (c : ℕ) (s : Str)
    → (c == b'\n') ≡ false
    → lines_from line (c ∷ s) ≡ lines_from (line ++ c ∷ []) s
unfolding lines_from
lines_step [] c s h = rw (h, lines_from) refl
lines_step (b ∷ line) c s h = rw (h, lines_from) refl

lines_from_line :
    (line s t : Str)
    → Lacks b'\n' s
    → lines_from line (s ++ (b'\n' ∷ t)) ≡ strip_cr (line ++ s) ∷ lines_from [] t
unfolding lines_from
lines_from_line [] [] t h = refl
lines_from_line (c ∷ line) [] t h =
    ap (λ x. strip_cr x ∷ lines_from [] t) (sym (append-nil (c ∷ line)))
lines_from_line [] (a ∷ s) t h =
    lines_step [] a (s ++ (b'\n' ∷ t)) h.0 ∙ lines_from_line (a ∷ []) s t h.1
lines_from_line (c ∷ line) (a ∷ s) t h =
    lines_step (c ∷ line) a (s ++ (b'\n' ∷ t)) h.0
    ∙ lines_from_line ((c ∷ line) ++ a ∷ []) s t h.1
    ∙ ap (λ x. strip_cr x ∷ lines_from [] t) (append_assoc (c ∷ line) (a ∷ []) s)

lines_from_last :
    (c : ℕ) (line s : Str) → Lacks b'\n' s → lines_from (c ∷ line) s ≡ (c ∷ (line ++ s)) ∷ []
unfolding lines_from
lines_from_last c line [] h = rw (append-nil line) refl
lines_from_last c line (a ∷ s) h =
    rw (h.0, lines_from)
      (lines_from_last c (line ++ a ∷ []) s h.1
        ∙ ap (λ x. (c ∷ x) ∷ []) (append_assoc line (a ∷ []) s))

-- A line that ends in CR LF, in front of others.
pub lines_more :
    (s t : Str) → Lacks b'\n' s → lines ((s ++ b'\r' ∷ []) ++ (b'\n' ∷ t)) ≡ s ∷ lines t
unfolding lines
lines_more s t h =
    lines_from_line [] (s ++ b'\r' ∷ []) t (Lacks-append b'\n' s (b'\r' ∷ []) h (refl, tt))
    ∙ ap (λ x. x ∷ lines t) (strip_cr-append s)

-- The last line, which ends the text.
pub lines_last : (c : ℕ) (s : Str) → Lacks b'\n' (c ∷ s) → lines (c ∷ s) ≡ (c ∷ s) ∷ []
unfolding lines lines_from
lines_last c s h = rw (h.0, lines_from) (lines_from_last c [] s h.1)

pub splitn_first :
    (n sep : ℕ) (s t : Str)
    → Lacks sep s
    → splitn (suc (suc n)) sep (s ++ (sep ∷ t)) ≡ s ∷ splitn (suc n) sep t
unfolding splitn
splitn_first n sep s t h =
    rw (find-append sep s t h, splitn)
      (ap (λ x. x ∷ splitn (suc n) sep (drop (suc (length s)) (s ++ (sep ∷ t))))
          (take-append s (sep ∷ t))
        ∙ ap (λ x. s ∷ splitn (suc n) sep x) (drop-append_suc s sep t))

pub splitn_rest : (sep : ℕ) (s : Str) → splitn 1 sep s ≡ s ∷ []
unfolding splitn
splitn_rest sep s = refl
