-- ===== src/Reader/Fill.antt =====
-- What the buffered reader holds and reads, on a source without faults.
use http_req.Prelude.{
  ℕ, ◌+◌, ◌≤◌, ◌<◌, ◌≡◌, ◌≢◌, refl, sym, ap, ◌∙◌, [], ◌∷◌, ◌++◌, leb, length, take, drop, arith,
  ne-nil, Bool-cases, inl, inr, append_assoc, take-append-drop, length-take, length-drop, leb→le,
}
use http_req.Text.{Str}
use http_req.Error.{ok}
use http_req.Reader.Buffered.{
  bytes, fails, Source, source_read, capacity, BufReader, buf_reader, fill_buf_in, fill_buf,
  consume, size,
}

abbrev pub NoFail : Source → Type 0
NoFail [] = Unit
NoFail (bytes d ∷ s) = (d ≢ []) × NoFail s
NoFail (fails e ∷ s) = ⊥

abbrev pub flat : Source → Str
flat [] = []
flat (bytes d ∷ s) = d ++ flat s
flat (fails e ∷ s) = flat s

pub record Yields (r : BufReader) (s : Str) : Type 0 where
  pub no_fail : NoFail r.inner
  pub left : r.buffer ++ flat r.inner ≡ s

-- What one read of the source gives.
pub record Delivers (s : Source) (k : ℕ) (out : Str) (s' : Source) : Type 0 where
  pub cut : flat s ≡ out ++ flat s'
  pub some_out : out ≢ []
  pub fits : length out ≤ k
  pub no_fail : NoFail s'
  pub smaller : length out + size s' ≤ size s

pub source_read_lem :
    (k : ℕ) (s : Source)
    → 0 < k
    → NoFail s
    → flat s ≢ []
    → (out : Str) × (s' : Source) × (source_read k s ≡ (ok out, s')) × Delivers s k out s'
unfolding source_read
source_read_lem k [] p n h = absurd (h refl)
source_read_lem k (fails e ∷ s) p n h = absurd n
source_read_lem k (bytes d ∷ s) p n h = elim (Bool-cases (leb (length d) k)) [
  | inl e ↦ (
    d,
    s,
    rw e refl,
    record {
      cut = refl;
      some_out = n.0;
      fits = leb→le _ _ e;
      no_fail = n.1;
      smaller = omega arith;
    },
  )
  | inr e ↦
      let long : k < length d = ground arith in
      (
        take k d,
        bytes (drop k d) ∷ s,
        rw e refl,
        record {
          cut =
              ap (λ x. x ++ flat s) (sym (take-append-drop k d))
              ∙ append_assoc (take k d) (drop k d) (flat s);
          some_out = ne-nil (take k d) (omega (arith, length-take k d));
          fits = omega (arith, length-take k d);
          no_fail = (ne-nil (drop k d) (omega (arith, length-drop k d)), n.1);
          smaller = omega (arith, length-take k d, length-drop k d);
        },
      )
]

flat-nil : (s : Source) → NoFail s → flat s ≡ [] → s ≡ []
flat-nil [] n h = refl
flat-nil (bytes [] ∷ s) n h = absurd (n.0 refl)
flat-nil (bytes (c ∷ d) ∷ s) n h = cc
flat-nil (fails e ∷ s) n h = absurd n

-- At the end nothing is buffered or to come.
pub Yields-nil : (r : BufReader) → Yields r [] → r ≡ buf_reader [] []
Yields-nil r y = go r.buffer r.inner y.no_fail y.left
  where
    go : (b : Str) (s : Source) → NoFail s → b ++ flat s ≡ [] → buf_reader b s ≡ buf_reader [] []
    go [] s n h = ap (buf_reader []) (flat-nil s n h)
    go (c ∷ b) s n h = cc

-- What a filled buffer gives.
pub record Fills (r : BufReader) (s b : Str) (r' : BufReader) : Type 0 where
  pub buffer : r'.buffer ≡ b
  pub some_b : b ≢ []
  pub yields : Yields r' s
  pub smaller : length r'.buffer + size r'.inner ≤ length r.buffer + size r.inner

pub fill_buf_lem :
    (r : BufReader) (s : Str)
    → Yields r s
    → s ≢ []
    → (b : Str) × (r' : BufReader) × (fill_buf r ≡ (ok b, r')) × Fills r s b r'
unfolding fill_buf
fill_buf_lem r s y h = go r.buffer r.inner y.no_fail y.left
  where
    go :
        (b : Str) (i : Source)
        → NoFail i
        → b ++ flat i ≡ s
        → (b' : Str) × (r' : BufReader) × (fill_buf_in b i ≡ (ok b', r'))
          × Fills (buf_reader b i) s b' r'
    go [] i n e =
        let (out, i', q, d) = source_read_lem capacity i (omega arith) n (λ z. h (sym e ∙ z)) in
        (
          out,
          buf_reader out i',
          unfold fill_buf_in in rw q refl,
          record {
            buffer = refl;
            some_b = d.some_out;
            yields = record { no_fail = d.no_fail; left = sym d.cut ∙ e };
            smaller = omega (arith, d.smaller);
          },
        )
    go (c ∷ b) i n e = (
      c ∷ b,
      buf_reader (c ∷ b) i,
      unfold fill_buf_in in refl,
      record {
        buffer = refl;
        some_b = λ z. cc;
        yields = record { no_fail = n; left = e };
        smaller = omega arith;
      },
    )

pub fill_buf_end : (r : BufReader) → Yields r [] → fill_buf r ≡ (ok [], r)
unfolding fill_buf fill_buf_in source_read
fill_buf_end r y = rw (Yields-nil r y) refl

-- `consume` of a part of the buffer.
pub Yields-consume :
    (k : ℕ) (r : BufReader) (b s : Str)
    → r.buffer ≡ b
    → Yields r s
    → Yields (consume k r) (drop k b ++ flat r.inner)
unfolding consume
Yields-consume k r b s e y = record { no_fail = y.no_fail; left = rw e refl }
