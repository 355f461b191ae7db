-- ===== src/Reader/Until.antt =====
-- `read_until` of the buffered reader on a source without faults.
use http_req.Prelude.{
  ℕ, zero, suc, ◌+◌, ◌≤◌, ◌<◌, ◌≡◌, ◌≢◌, refl, sym, ap, ◌∙◌, [], ◌∷◌, ◌++◌, leb, length, take, drop,
  arith, ne-nil, Bool-cases, inl, inr, append_assoc, append-nil, length-drop, length-append,
  append-split, drop-all, take-append_suc, drop-append_suc, leb→le,
}
use http_req.Text.{Str, find}
use http_req.Text.Search.{Lacks, find-eq-none, find-append}
use http_req.Error.{ok}
use http_req.Reader.Buffered.{BufReader, fill_buf, consume, read_until_from, size}
use http_req.Reader.Fill.{Fills, Yields, Yields-consume, fill_buf_end, fill_buf_lem, flat}

-- `read_until` with this much fuel takes the bytes up to the first `c`, or up to the end.
abbrev left : BufReader → ℕ
left r = length r.buffer + size r.inner

left-consume : (k : ℕ) (r : BufReader) → k ≤ length r.buffer → left (consume k r) + k ≡ left r
unfolding consume
left-consume k r h = omega (arith, length-drop k r.buffer)

abbrev UntilAt : ℕ → ℕ → Type 0
UntilAt c f =
    (acc : Str) (r : BufReader) (s t : Str)
    → left r + 1 < f
    → Yields r (s ++ (c ∷ t))
    → Lacks c s
    → (r' : BufReader) × (read_until_from f c acc r ≡ (ok (acc ++ (s ++ c ∷ [])), r')) × Yields r' t

Lacks-prefix : (c : ℕ) (s t : Str) → Lacks c (s ++ t) → Lacks c s × Lacks c t
Lacks-prefix c [] t h = (tt, h)
Lacks-prefix c (a ∷ s) t h = let (x, y) = Lacks-prefix c s t h.1 in ((h.0, x), y)

module _ (c f : ℕ) (ih : UntilAt c f) (acc : Str) (r : BufReader) (s t : Str)
    (h : left r + 1 < suc f) (lacks : Lacks c s) (x : ℕ) (b : Str) (r' : BufReader)
    (q : fill_buf r ≡ (ok (x ∷ b), r')) (d : Fills r (s ++ (c ∷ t)) (x ∷ b) r') where
  abbrev Done : Type 0
  Done =
      (r'' : BufReader) × (read_until_from (suc f) c acc r ≡ (ok (acc ++ (s ++ c ∷ [])), r''))
      × Yields r'' t

  -- The buffer ends in front of the byte.
  until_go_on : (m : Str) → s ≡ (x ∷ b) ++ m → flat r'.inner ≡ m ++ (c ∷ t) → Done
  unfolding read_until_from
  until_go_on m p o =
      let next : BufReader = consume (length (x ∷ b)) r' in
      let l : Lacks c (x ∷ b) × Lacks c m = Lacks-prefix c (x ∷ b) m (rw p at lacks) in
      let emptied : drop (length (x ∷ b)) (x ∷ b) ≡ [] =
        drop-all (x ∷ b) (length (x ∷ b)) (omega arith) in
      let fewer : left next + length (x ∷ b) ≤ length r'.buffer + size r'.inner =
        omega (arith, left-consume (length (x ∷ b)) r', ap length d.buffer) in
      let y : Yields next (drop (length (x ∷ b)) (x ∷ b) ++ flat r'.inner) =
        Yields-consume (length (x ∷ b)) r' (x ∷ b) _ d.buffer d.yields in
      let (r'', z, y') =
        ih (acc ++ x ∷ b) next m t (omega (arith, d.smaller, fewer)) (rw (emptied, o) at y) l.1 in
      let same : (acc ++ x ∷ b) ++ (m ++ c ∷ []) ≡ acc ++ (s ++ c ∷ []) =
        append_assoc acc (x ∷ b) (m ++ c ∷ [])
        ∙ ap (λ w. acc ++ w)
            (sym (append_assoc (x ∷ b) m (c ∷ [])) ∙ ap (λ w. w ++ c ∷ []) (sym p)) in
      (r'', rw q (rw (find-eq-none c (x ∷ b) l.0) (z ∙ ap (λ w. (ok w, r'')) same)), y')

  -- The buffer holds the byte.
  until_found :
      (m : Str) → x ∷ b ≡ s ++ m → c ∷ t ≡ m ++ flat r'.inner → length s < length (x ∷ b) → Done
  unfolding read_until_from
  until_found [] p o l = absurd (omega (arith, ap length p, length-append s []))
  until_found (y ∷ m) p o l =
      let p' : x ∷ b ≡ s ++ (c ∷ m) = p ∙ ap (λ w. s ++ (w ∷ m)) (cc) in
      let next : BufReader = consume (suc (length s)) r' in
      let rest : drop (suc (length s)) (x ∷ b) ++ flat r'.inner ≡ t =
        ap (λ w. drop (suc (length s)) w ++ flat r'.inner) p'
        ∙ ap (λ w. w ++ flat r'.inner) (drop-append_suc s c m)
        ∙ cc in
      (
        next,
        rw q (
            rw (ap (λ w. find w (c ∷ [])) p' ∙ find-append c s m lacks) (
              ap (λ w. (ok (acc ++ w), next))
                (ap (take (suc (length s))) p' ∙ take-append_suc s c m))),
        rw rest at (Yields-consume (suc (length s)) r' (x ∷ b) _ d.buffer d.yields),
      )

until_step :
    (c f : ℕ)
    → UntilAt c f
    → (acc : Str) (r : BufReader) (s t : Str) → left r + 1 < suc f
    → Lacks c s
    → (b : Str) (r' : BufReader) → fill_buf r ≡ (ok b, r')
    → Fills r (s ++ (c ∷ t)) b r'
    → (r'' : BufReader) × (read_until_from (suc f) c acc r ≡ (ok (acc ++ (s ++ c ∷ [])), r''))
      × Yields r'' t
until_step c f ih acc r s t h l [] r' q d = absurd (d.some_b refl)
until_step c f ih acc r s t h l (x ∷ b) r' q d =
    let all : (x ∷ b) ++ flat r'.inner ≡ s ++ (c ∷ t) = rw d.buffer at d.yields.left in
    elim (Bool-cases (leb (length (x ∷ b)) (length s))) [
      | inl e ↦
          let (m, p, o) = append-split (x ∷ b) (flat r'.inner) s (c ∷ t) all (leb→le _ _ e) in
          until_go_on c f ih acc r s t h l x b r' q d m p o
      | inr e ↦
          let short : length s < length (x ∷ b) = ground arith in
          let (m, p, o) = append-split s (c ∷ t) (x ∷ b) (flat r'.inner) (sym all) (omega arith) in
          until_found c f ih acc r s t h l x b r' q d m p o short
    ]

pub read_until_from_lem : (c f : ℕ) → UntilAt c f
read_until_from_lem c zero acc r s t h y l = absurd (omega arith)
read_until_from_lem c (suc f) acc r s t h y l =
    let some_left : s ++ (c ∷ t) ≢ [] = ne-nil _ (omega (arith, length-append s (c ∷ t))) in
    let (b, r', q, d) = fill_buf_lem r (s ++ (c ∷ t)) y some_left in
    until_step c f (read_until_from_lem c f) acc r s t h l b r' q d

-- Without the byte everything is taken.
abbrev EndAt : ℕ → ℕ → Type 0
EndAt c f =
    (acc : Str) (r : BufReader) (s : Str)
    → left r + 1 < f
    → Yields r s
    → Lacks c s
    → (r' : BufReader) × (read_until_from f c acc r ≡ (ok (acc ++ s), r')) × Yields r' []

end_step :
    (c f : ℕ)
    → EndAt c f
    → (acc : Str) (r : BufReader) (s : Str) → left r + 1 < suc f
    → Lacks c s
    → (b : Str) (r' : BufReader) → fill_buf r ≡ (ok b, r')
    → Fills r s b r'
    → (r'' : BufReader) × (read_until_from (suc f) c acc r ≡ (ok (acc ++ s), r'')) × Yields r'' []
unfolding read_until_from
end_step c f ih acc r s h l [] r' q d = absurd (d.some_b refl)
end_step c f ih acc r s h l (x ∷ b) r' q d =
    let all : s ≡ (x ∷ b) ++ flat r'.inner =
      sym d.yields.left ∙ ap (λ w. w ++ flat r'.inner) d.buffer in
    let lacks : Lacks c (x ∷ b) × Lacks c (flat r'.inner) =
      Lacks-prefix c (x ∷ b) (flat r'.inner) (rw all at l) in
    let next : BufReader = consume (length (x ∷ b)) r' in
    let fewer : left next + length (x ∷ b) ≤ length r'.buffer + size r'.inner =
      omega (arith, left-consume (length (x ∷ b)) r', ap length d.buffer) in
    let emptied : drop (length (x ∷ b)) (x ∷ b) ≡ [] =
      drop-all (x ∷ b) (length (x ∷ b)) (omega arith) in
    let y : Yields next (drop (length (x ∷ b)) (x ∷ b) ++ flat r'.inner) =
      Yields-consume (length (x ∷ b)) r' (x ∷ b) _ d.buffer d.yields in
    let (r'', z, y') =
      ih (acc ++ x ∷ b) next (flat r'.inner) (omega (arith, d.smaller, fewer)) (rw emptied at y)
        lacks.1 in
    let same : (acc ++ x ∷ b) ++ flat r'.inner ≡ acc ++ s =
      append_assoc acc (x ∷ b) (flat r'.inner) ∙ ap (λ w. acc ++ w) (sym all) in
    (r'', rw q (rw (find-eq-none c (x ∷ b) lacks.0) (z ∙ ap (λ w. (ok w, r'')) same)), y')

pub read_until_from_end : (c f : ℕ) → EndAt c f
read_until_from_end c zero acc r s h y l = absurd (omega arith)
read_until_from_end c (suc f) acc r [] h y l =
    unfold read_until_from find in
    (r, rw (fill_buf_end r y) (ap (λ w. (ok w, r)) (sym (append-nil acc))), y)
read_until_from_end c (suc f) acc r (x ∷ s) h y l =
    let (b, r', q, d) = fill_buf_lem r (x ∷ s) y (λ z. cc) in
    end_step c f (read_until_from_end c f) acc r (x ∷ s) h l b r' q d
