-- ===== src/Reader/Exact.antt =====
-- `read` and `read_exact` of the buffered reader on a source without faults.
use http_req.Prelude.{
  ℕ, zero, suc, ◌-◌, ◌≤◌, ◌<◌, ◌≡◌, ◌≢◌, refl, sym, ap, ◌∙◌, [], ◌∷◌, ◌++◌, leb, length, take, drop,
  arith, ne-nil, pos-length, Bool-cases, inl, inr, append_assoc, append-nil, take-append-drop,
  length-take, length-append, append-split, length-zero,
}
use http_req.Text.{Str}
use http_req.Error.{ok}
use http_req.Reader.Buffered.{
  Source, capacity, BufReader, buf_reader, fill_buf_in, consume, read_in, read, read_exact_from,
}
use http_req.Reader.Fill.{NoFail, Yields, flat, source_read_lem}

pub record Reads (k : ℕ) (s : Str) (out rest : Str) (r' : BufReader) : Type 0 where
  pub cut : s ≡ out ++ rest
  pub some_out : out ≢ []
  pub fits : length out ≤ k
  pub yields : Yields r' rest

-- Taking up to `k` bytes of a buffer that is not empty.
Reads-taken :
    (k : ℕ) (b s : Str) (i : Source)
    → 0 < k
    → b ≢ []
    → NoFail i
    → b ++ flat i ≡ s
    → Reads k s (take k b) (drop k b ++ flat i) (consume k (buf_reader b i))
unfolding consume
Reads-taken k b s i p h n e = record {
  cut =
      sym e
      ∙ ap (λ x. x ++ flat i) (sym (take-append-drop k b))
      ∙ append_assoc (take k b) (drop k b) (flat i);
  some_out = ne-nil (take k b) (omega (arith, length-take k b, pos-length b h));
  fits = omega (arith, length-take k b);
  yields = record { no_fail = n; left = refl };
}

pub read_lem :
    (k : ℕ) (r : BufReader) (s : Str)
    → Yields r s
    → 0 < k
    → s ≢ []
    → (out rest : Str) × (r' : BufReader) × (read k r ≡ (ok out, r')) × Reads k s out rest r'
unfolding read
read_lem k r s y p h = go r.buffer r.inner y.no_fail y.left
  where
    go :
        (b : Str) (i : Source)
        → NoFail i
        → b ++ flat i ≡ s
        → (out rest : Str) × (r' : BufReader) × (read_in k b i ≡ (ok out, r'))
          × Reads k s out rest r'
    go (c ∷ b) i n e = (
      take k (c ∷ b),
      drop k (c ∷ b) ++ flat i,
      consume k (buf_reader (c ∷ b) i),
      unfold read_in fill_buf_in in refl,
      Reads-taken k (c ∷ b) s i p (λ z. cc) n e,
    )
    go [] i n e = elim (Bool-cases (leb capacity k)) [
      | inl t ↦
          let (out, i', q, d) = source_read_lem k i p n (λ z. h (sym e ∙ z)) in
          (
            out,
            flat i',
            buf_reader [] i',
            unfold read_in in rw (t, q) refl,
            record {
              cut = sym e ∙ d.cut;
              some_out = d.some_out;
              fits = d.fits;
              yields = record { no_fail = d.no_fail; left = refl };
            },
          )
      | inr t ↦
          let (out, i', q, d) = source_read_lem capacity i (omega arith) n (λ z. h (sym e ∙ z)) in
          (
            take k out,
            drop k out ++ flat i',
            consume k (buf_reader out i'),
            unfold read_in fill_buf_in in rw (t, q) refl,
            Reads-taken k out s i' p d.some_out d.no_fail (sym d.cut ∙ e),
          )
    ]

-- `read_exact` with this much fuel takes the next `k` bytes.
abbrev ExactAt : ℕ → Type 0
ExactAt f =
    (k : ℕ) (acc : Str) (r : BufReader) (s t : Str)
    → k < f
    → Yields r (s ++ t)
    → length s ≡ k
    → (r' : BufReader) × (read_exact_from f k acc r ≡ (ok (acc ++ s), r')) × Yields r' t

module _ (f : ℕ) (ih : ExactAt f) (k : ℕ) (acc : Str) (r : BufReader) (s t : Str) (h : k < f)
    (e : length s ≡ suc k) where
  exact_step :
      (out rest : Str) (r' : BufReader)
      → read (suc k) r ≡ (ok out, r')
      → Reads (suc k) (s ++ t) out rest r'
      → (m : Str) → s ≡ out ++ m
      → rest ≡ m ++ t
      → (r'' : BufReader) × (read_exact_from (suc f) (suc k) acc r ≡ (ok (acc ++ s), r''))
        × Yields r'' t
  unfolding read_exact_from
  exact_step [] rest r' q d m p o = absurd (d.some_out refl)
  exact_step (b ∷ out) rest r' q d m p o =
      let l : length m ≡ suc k - length (b ∷ out) =
        omega (arith, ap length p, length-append (b ∷ out) m, d.fits) in
      let (r'', z, y) =
        ih (suc k - length (b ∷ out)) (acc ++ b ∷ out) r' m t (omega arith) (rw o at d.yields) l in
      let same : (acc ++ b ∷ out) ++ m ≡ acc ++ s =
        append_assoc acc (b ∷ out) m ∙ ap (λ x. acc ++ x) (sym p) in
      (r'', rw q (z ∙ ap (λ x. (ok x, r'')) same), y)

pub read_exact_from_lem : (f : ℕ) → ExactAt f
read_exact_from_lem zero k acc r s t h y e = absurd (omega arith)
read_exact_from_lem (suc f) zero acc r s t h y e =
    unfold read_exact_from in
    (
      r,
      ap (λ x. (ok x, r)) (sym (ap (λ x. acc ++ x) (length-zero s e) ∙ append-nil acc)),
      rw (length-zero s e) at y,
    )
read_exact_from_lem (suc f) (suc k) acc r s t h y e =
    let long : 0 < length (s ++ t) = omega (arith, length-append s t) in
    let (out, rest, r', q, d) =
      read_lem (suc k) r (s ++ t) y (omega arith) (ne-nil (s ++ t) long) in
    let (m, p, o) = append-split out rest s t (sym d.cut) (omega (arith, d.fits)) in
    exact_step f (read_exact_from_lem f) k acc r s t (omega arith) e out rest r' q d m p o
