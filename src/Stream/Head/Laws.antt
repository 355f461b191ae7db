-- ===== src/Stream/Head/Laws.antt =====
-- What `read_head` takes of a stream without faults.
use http_req.Prelude.{
  ℕ, zero, suc, ◌-◌, ◌<◌, ◌≡◌, ◌≢◌, refl, sym, ap, ◌∙◌, true, false, some, [], ◌∷◌, ◌++◌, ◌==◌,
  length, drop, arith, append_assoc, append-nil, length-append, drop-append, ne-nil, Bool-cases,
  inl, inr,
}
use http_req.Text.{Str, str_eq}
use http_req.Text.Search.{Lacks, str_eq→eq}
use http_req.Error.{ok}
use http_req.Reader.{Reader, ReaderLaws}
use http_req.Chunked.{cr_lf}
use http_req.Stream.Head.{lf, ends_blank, after_line, read_head_from, read_head}

-- A stream `s` starts with the head `h`: its lines up to the first empty one and with it, or all of
-- the stream if no line is empty; `rest` is what stands behind.
pub data HeadOf (rest : Str) : Str → Str → Type 0 where
  blank : {s h : Str} → s ≡ cr_lf ++ rest → h ≡ cr_lf → HeadOf rest s h
  line :
      {s h : Str} (l t k : Str)
      → Lacks lf l
      → l ≢ b'\r' ∷ []
      → HeadOf rest t k
      → s ≡ l ++ (lf ∷ t)
      → h ≡ l ++ (lf ∷ k)
      → HeadOf rest s h
  ends : {s h : Str} → Lacks lf s → rest ≡ [] → h ≡ s → HeadOf rest s h

-- The last two of what is written behind `buf`.
last_two :
    (buf : Str) (a b : ℕ)
    → drop (length (buf ++ (a ∷ b ∷ [])) - 2) (buf ++ (a ∷ b ∷ [])) ≡ a ∷ b ∷ []
last_two buf a b =
    let e : length (buf ++ (a ∷ b ∷ [])) - 2 ≡ length buf =
      omega (arith, length-append buf (a ∷ b ∷ [])) in
    ap (λ n. drop n (buf ++ (a ∷ b ∷ []))) e ∙ drop-append buf (a ∷ b ∷ [])

ends_blank-cr_lf : (buf : Str) → ends_blank 2 (buf ++ cr_lf) ≡ true
unfolding ends_blank str_eq
ends_blank-cr_lf buf = rw (last_two buf b'\r' b'\n') refl

ends_blank-other :
    (buf piece : Str) → piece ≢ cr_lf → ends_blank (length piece) (buf ++ piece) ≡ false
unfolding ends_blank
ends_blank-other buf [] ne = refl
ends_blank-other buf (a ∷ []) ne = refl
ends_blank-other buf (a ∷ b ∷ c ∷ l) ne =
    let t : (length (a ∷ b ∷ c ∷ l) == 2) ≡ false = ground arith in rw t refl
ends_blank-other buf (a ∷ b ∷ []) ne = elim (Bool-cases (str_eq (a ∷ b ∷ []) cr_lf)) [
  | inl e ↦ absurd (ne (str_eq→eq (a ∷ b ∷ []) cr_lf e))
  | inr e ↦ rw (last_two buf a b) e
]

line-ne : (l : Str) → l ≢ b'\r' ∷ [] → l ++ lf ∷ [] ≢ cr_lf
line-ne [] ne e = cc
line-ne (a ∷ []) ne e = ne (cc)
line-ne (a ∷ b ∷ []) ne e = cc
line-ne (a ∷ b ∷ c ∷ l) ne e = cc

Lacks-ne : (s : Str) → Lacks lf s → s ≢ cr_lf
Lacks-ne s k e = let z = rw e at k in cc

module _ (R : Reader) (L : ReaderLaws R) where
  -- The rest of the stream without a newline, and a line with one.
  abbrev Heads : ℕ → Str → R.Rd → Str → Str → Type 0
  Heads f buf r h rest =
      (r' : R.Rd) × (read_head_from R f buf r ≡ some (buf ++ h, r')) × L.Yields r' rest

  abbrev HeadsAt : ℕ → Type 0
  HeadsAt f =
      (buf : Str) (r : R.Rd) (s h rest : Str)
      → HeadOf rest s h
      → L.Yields r s
      → length s < f
      → Heads f buf r h rest

  goes_on :
      (f : ℕ) (buf piece part : Str) (r : R.Rd)
      → piece ≢ []
      → piece ≢ cr_lf
      → after_line R (read_head_from R f) buf part (ok piece, r)
        ≡ read_head_from R f (buf ++ piece) r
  goes_on f buf [] part r some_piece ne = absurd (some_piece refl)
  goes_on f buf (b ∷ piece) part r some_piece ne = rw (ends_blank-other buf (b ∷ piece) ne) refl

  at_end : (f : ℕ) (buf : Str) (r : R.Rd) → L.Yields r [] → Heads (suc f) buf r [] []
  unfolding read_head_from
  at_end f buf r y =
      let (r', q, y') = L.read_until_end lf r [] y tt in
      (r', rw q (ap (λ x. some (x, r')) (sym (append-nil buf))), y')

  heads : (f : ℕ) → HeadsAt f
  unfolding read_head_from
  heads zero buf r s h rest x y l = absurd (omega arith)
  heads (suc f) buf r s h rest (blank p q) y l =
      let (r', z, y') = L.read_until_lem lf r (b'\r' ∷ []) rest (rw p at y) (refl, tt) in
      (r', rw z (rw (ends_blank-cr_lf buf) (ap (λ x. some (buf ++ x, r')) (sym q))), y')
  heads (suc f) buf r s h rest (line l t k lacks ne x p q) y m =
      let (r', z, y') = L.read_until_lem lf r l t (rw p at y) lacks in
      let some_line : l ++ lf ∷ [] ≢ [] = ne-nil _ (omega (arith, length-append l (lf ∷ []))) in
      let (r'', z', y'') =
        heads f (buf ++ (l ++ lf ∷ [])) r' t k rest x y'
          (omega (arith, ap length p, length-append l (lf ∷ t))) in
      (
        r'',
        rw z (
            goes_on f buf (l ++ lf ∷ []) (R.until_part lf r) r' some_line (line-ne l ne)
            ∙ z'
            ∙ ap (λ w. some (w, r''))
                (append_assoc buf (l ++ lf ∷ []) k
                  ∙ ap (λ w. buf ++ w) (append_assoc l (lf ∷ []) k ∙ sym q))),
        y'',
      )
  heads (suc f) buf r [] h rest (ends lacks p q) y m = rw (q, p) (at_end f buf r y)
  heads (suc (suc f)) buf r (c ∷ s) h rest (ends lacks p q) y m =
      let (r', z, y') = L.read_until_end lf r (c ∷ s) y lacks in
      let (r'', z', y'') = at_end f (buf ++ c ∷ s) r' y' in
      (
        r'',
        rw z (
            goes_on (suc f) buf (c ∷ s) (R.until_part lf r) r' (λ e. cc) (Lacks-ne (c ∷ s) lacks)
            ∙ z'
            ∙ ap (λ w. some (w, r'')) (append-nil (buf ++ c ∷ s) ∙ ap (λ w. buf ++ w) (sym q))),
        rw (sym p) at y'',
      )
  heads (suc zero) buf r (c ∷ s) h rest (ends lacks p q) y m = absurd (omega arith)

-- `read_head` on a stream without faults ends within one round more than the stream has bytes. It
-- takes the lines up to the first empty one and with it, or all of the stream if there is none, and
-- leaves the rest on the stream.
pub read_head_lem :
    (R : Reader) (L : ReaderLaws R) (fuel : ℕ) (r : R.Rd) (s h rest : Str)
    → L.Yields r s
    → HeadOf rest s h
    → length s < fuel
    → (r' : R.Rd) × (read_head R fuel r ≡ some (h, r')) × L.Yields r' rest
unfolding read_head
read_head_lem R L fuel r s h rest y x l = heads R L fuel [] r s h rest x y l
