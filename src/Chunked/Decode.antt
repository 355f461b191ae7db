-- ===== src/Chunked/Decode.antt =====
-- `ChunkReader::read` on a stream in the chunked encoding.
use http_req.Prelude.{
  ◌⊎◌, ℕ, zero, suc, ◌+◌, ◌*◌, ◌≤◌, ◌<◌, ◌≡◌, refl, sym, ap, ◌∙◌, subst, true, false, none, [], ◌∷◌,
  ◌++◌, length, arith, append_assoc, append-nil, Bool-cases, inl, inr,
}
use http_req.Text.{Str}
use http_req.Error.{ok}
use http_req.Reader.{Reader, ReaderLaws}
use http_req.Chunked.{
  ChunkReader, Flow, stop, again, overflow, ReadResult, returns, finish, follow, read_loop, read,
  round,
}
use http_req.Chunked.States.{Pending, header, footer, body, finished}
use http_req.Chunked.Rounds.{Stepped, round_lem}

module _ (R : Reader) (L : ReaderLaws R) (len : ℕ) where
  -- A read of the pending text `p` gives `out` and leaves the rest pending.
  pub record Gives (p : Str) (before : Str) (result : ReadResult R) : Type 0 where
    pub out : Str
    pub rest : Str
    pub state : ChunkReader R
    pub wait : ℕ
    pub is_result : result ≡ returns (ok (before ++ out)) state
    pub cut : p ≡ out ++ rest
    pub fits : length (before ++ out) ≤ len
    pub pending : Pending R L len state rest wait
    pub goes_on : before ≡ [] → out ≡ [] → 0 < len → p ≡ []

  Pending-failure : (c : ChunkReader R) (p : Str) (w : ℕ) → Pending R L len c p w → c.failure ≡ none
  Pending-failure c p w (header ds s k e f g n y x q) = g
  Pending-failure c p w (footer ds s k e f g n y x q) = g
  Pending-failure c p w (body d ds s k e f g n ne l y x q) = g
  Pending-failure c p w (finished k e g q) = g

  Pending-eof :
      (c : ChunkReader R) (p : Str) (w : ℕ) → Pending R L len c p w → c.eof ≡ true → p ≡ []
  Pending-eof c p w (header ds s k e f g n y x q) t =
      absurd (let z : true ≡ false = sym t ∙ f in cc)
  Pending-eof c p w (footer ds s k e f g n y x q) t =
      absurd (let z : true ≡ false = sym t ∙ f in cc)
  Pending-eof c p w (body d ds s k e f g n ne l y x q) t =
      absurd (let z : true ≡ false = sym t ∙ f in cc)
  Pending-eof c p w (finished k e g q) t = q

  finish-returns :
      (c : ChunkReader R) (out : Str) → c.failure ≡ none → finish R c out ≡ returns (ok out) c
  finish-returns c out g = rw g refl

  -- The two ways through the test of the loop.
  at_end :
      (f : ℕ) (c : ChunkReader R) (out : Str)
      → c.eof ≡ true
      → c.failure ≡ none
      → read_loop R (suc f) len c out ≡ returns (ok out) c
  unfolding read_loop
  at_end f c out e g = rw (e, g) refl

  pub goes_round :
      (f : ℕ) (c : ChunkReader R) (out : Str)
      → c.eof ≡ false
      → c.failure ≡ none
      → read_loop R (suc f) len c out ≡ follow R (read_loop R f len) (round R len c out)
  unfolding read_loop
  goes_round f c out e g = rw (e, g) refl

  append-eq-nil : (xs ys : Str) → xs ++ ys ≡ [] → (xs ≡ []) × (ys ≡ [])
  append-eq-nil [] ys h = (refl, h)
  append-eq-nil (x ∷ xs) ys h = cc

  abbrev LoopAt : ℕ → Type 0
  LoopAt f =
      (c : ChunkReader R) (out p : Str) (w : ℕ)
      → 2 * length p + w < f
      → length out ≤ len
      → Pending R L len c p w
      → Gives p out (read_loop R f len c out)

  follow_lem :
      (f : ℕ)
      → LoopAt f
      → (out p : Str) (m : ℕ) → m < suc f
      → length out ≤ len
      → (w : Flow R) → Stepped R L len out p m w
      → Gives p out (follow R (read_loop R f len) w)
  follow_lem f ih out p m h room (stop c' out') (same, (w, pending), why) =
      let e : out' ≡ out ++ [] = same ∙ sym (append-nil out) in
      record {
        out = [];
        rest = p;
        state = c';
        wait = w;
        is_result =
            finish-returns c' out' (Pending-failure c' p w pending) ∙ ap (λ x. returns (ok x) c') e;
        cut = refl;
        fits = rw (append-nil out) room;
        pending = pending;
        goes_on = λ z y l. absurd (omega (arith, why z));
      }
  follow_lem f ih out p m h room (again c' out') (d, p', w, same, cut, room', pending, less) =
      let g = ih c' out' p' w (omega arith) room' pending in
      let e : out' ++ g.out ≡ out ++ (d ++ g.out) =
        ap (λ x. x ++ g.out) same ∙ append_assoc out d g.out in
      record {
        out = d ++ g.out;
        rest = g.rest;
        state = g.state;
        wait = g.wait;
        is_result = g.is_result ∙ ap (λ x. returns (ok x) g.state) e;
        cut = cut ∙ ap (λ x. d ++ x) g.cut ∙ sym (append_assoc d g.out g.rest);
        fits = rw e at g.fits;
        pending = g.pending;
        goes_on = λ z y l.
            let (d_nil, out_nil) = append-eq-nil d g.out y in
            cut ∙ ap (λ x. x ++ p') d_nil ∙ g.goes_on (same ∙ ap (λ x. x ++ d) z ∙ d_nil) out_nil l;
      }
  follow_lem f ih out p m h room overflow s = absurd s

  read_loop_lem : (f : ℕ) → LoopAt f
  read_loop_lem zero c out p w h room pending = absurd (omega arith)
  read_loop_lem (suc f) c out p w h room pending =
      let g : c.failure ≡ none = Pending-failure c p w pending in
      elim (Bool-cases c.eof) [
        | inl e ↦ record {
          out = [];
          rest = p;
          state = c;
          wait = w;
          is_result = at_end f c out e g ∙ ap (λ x. returns (ok x) c) (sym (append-nil out));
          cut = refl;
          fits = rw (append-nil out) room;
          pending = pending;
          goes_on = λ z y l. Pending-eof c p w pending e;
        }
        | inr e ↦ subst (Gives p out) (sym (goes_round f c out e g)) (
            follow_lem f (read_loop_lem f) out p (2 * length p + w) h room (round R len c out)
              (round_lem R L len c out p w room e pending))
      ]

pub read_lem :
    (R : Reader) (L : ReaderLaws R) (len fuel : ℕ) (c : ChunkReader R) (p : Str) (w : ℕ)
    → 2 * length p + w < fuel
    → Pending R L len c p w
    → Gives R L len p [] (read R fuel len c)
unfolding read
read_lem R L len fuel c p w h pending = read_loop_lem R L len fuel c [] p w h (omega arith) pending

-- A read of the pending text `p` gives `out`, the first part of it, and leaves the rest pending.
pub record Reads (R : Reader) (L : ReaderLaws R) (len : ℕ) (p : Str) (result : ReadResult R)
    : Type 0 where
  pub out : Str
  pub rest : Str
  pub state : ChunkReader R
  pub wait : ℕ
  pub is_result : result ≡ returns (ok out) state
  pub cut : p ≡ out ++ rest
  pub fits : length out ≤ len
  pub pending : Pending R L len state rest wait
  pub progress : (0 < length out) ⊎ ((len ≡ 0) ⊎ (p ≡ []))

progress_lem :
    (len : ℕ) (p out : Str)
    → (out ≡ [] → 0 < len → p ≡ [])
    → (0 < length out) ⊎ ((len ≡ 0) ⊎ (p ≡ []))
progress_lem zero p out f = inr (inl refl)
progress_lem (suc len) p [] f = inr (inr (f refl (omega arith)))
progress_lem (suc len) p (b ∷ out) f = inl (omega arith)

-- On a stream in the chunked encoding a read of `ChunkReader` ends, without a panic and without an
-- error, in at most two rounds more than twice the payload is long. It gives the next bytes of the
-- payload, as many as fit the buffer at most, and leaves a reader of the rest. It gives none only
-- if the buffer is empty or the payload at its end.
pub read-Reads :
    (R : Reader) (L : ReaderLaws R) (len fuel : ℕ) (c : ChunkReader R) (p : Str) (w : ℕ)
    → 2 * length p + w < fuel
    → Pending R L len c p w
    → Reads R L len p (read R fuel len c)
read-Reads R L len fuel c p w h pending =
    let g = read_lem R L len fuel c p w h pending in
    record {
      out = g.out;
      rest = g.rest;
      state = g.state;
      wait = g.wait;
      is_result = g.is_result;
      cut = g.cut;
      fits = g.fits;
      pending = g.pending;
      progress = progress_lem len p g.out (g.goes_on refl);
    }
