-- ===== src/Chunked/Rounds.antt =====
-- One round of the loop in `ChunkReader::read`, on a stream in the chunked encoding.
use http_req.Prelude.{
  ℕ, suc, ◌+◌, ◌-◌, ◌*◌, ◌≤◌, ◌<◌, ◌≡◌, refl, sym, ap, ◌∙◌, true, false, ◌&&◌, not, none, List, [],
  ◌∷◌, ◌++◌, if◌then◌else◌, ◌==◌, ltb, leb, length, arith, ne-nil, pos-length, append_assoc,
  append-nil, length-append, Bool-cases, inl, inr, append-split,
}
use http_req.Text.{Str, str_eq}
use http_req.Error.{ok}
use http_req.Reader.{Reader, ReaderLaws}
use http_req.Chunked.{
  usize_bound, cr_lf, ChunkReader, chunk_header_avaliable, Flow, stop, again, overflow, after_read,
  read_body, round,
}
use http_req.Chunked.Stream.{Encoded, payload}
use http_req.Chunked.States.{Pending, header, footer, body, finished, begin_chunk_lem}

module _ (R : Reader) (L : ReaderLaws R) (len : ℕ) where
  -- What a round leads to: an end with nothing more written, for lack of room or with something
  -- written before; or another round that is nearer to the end, with `d` written.
  abbrev pub Stepped : Str → Str → ℕ → Flow R → Type 0
  Stepped out p m (stop c' out') =
      (out' ≡ out) × ((w : ℕ) × Pending R L len c' p w) × (out ≡ [] → len ≡ 0)
  Stepped out p m (again c' out') =
      (d p' : Str) × (w : ℕ) × (out' ≡ out ++ d)
      × (p ≡ d ++ p')
      × (length out' ≤ len)
      × Pending R L len c' p' w
      × (2 * length p' + w < m)
  Stepped out p m overflow = ⊥

  module _ (c : ChunkReader R) (out : Str) (room : length out ≤ len) where
    header_round :
        (ds : List Str) (s p : Str)
        → c.check_end ≡ false
        → c.eof ≡ false
        → c.failure ≡ none
        → c.n ≡ 0
        → L.Yields c.reader s
        → Encoded len ds s
        → p ≡ payload ds
        → Stepped out p (2 * length p + 1) (read_body R len c out)
    unfolding read_body
    header_round ds s p e f g n y x q =
        let t : (c.n == 0) ≡ true = ground arith in
        elim (Bool-cases (ltb 0 (length out) && not (chunk_header_avaliable R c))) [
          | inl b ↦
              rw (t, b)
                (
                  refl,
                  (1, header ds s refl e f g n y x q),
                  λ z. absurd (ground (arith, ap length z)),
                )
          | inr b ↦
              rw (t, b)
                (
                  [],
                  p,
                  0,
                  sym (append-nil out),
                  refl,
                  room,
                  rw (sym q) at (begin_chunk_lem R L len c ds s e g y x),
                  omega arith,
                )
        ]

    -- What the end of a read is computed to.
    abbrev until : ℕ
    until = if ltb (length out + c.n) len then length out + c.n else len

    body_read :
        (d : Str) (ds : List Str) (s p : Str)
        → c.check_end ≡ false
        → c.eof ≡ false
        → c.failure ≡ none
        → c.n ≡ length d
        → length d + len < usize_bound
        → Encoded len ds s
        → p ≡ d ++ payload ds
        → (o m : Str) (r' : R.Rd) → d ≡ o ++ m
        → 0 < length o
        → length out + length o ≤ len
        → L.Yields r' (m ++ (b'\r' ∷ b'\n' ∷ s))
        → Stepped out p (2 * length p) (after_read R c out (ok o, r'))
    body_read d ds s p e f g n k x q o [] r' cut ne fits y =
        let parts : p ≡ o ++ payload ds =
          q ∙ ap (λ z. z ++ payload ds) cut ∙ append_assoc o [] (payload ds) in
        let size : length d ≡ length o + 0 = ap length cut ∙ length-append o [] in
        let t : (c.n - length o == 0) ≡ true = ground arith in
        (
          o,
          payload ds,
          1,
          refl,
          parts,
          omega (arith, length-append out o),
          rw (t, g) (footer ds s refl refl f refl (ground arith) y x refl),
          omega (arith, ap length parts, length-append o (payload ds)),
        )
    body_read d ds s p e f g n k x q o (b ∷ m) r' cut ne fits y =
        let parts : p ≡ o ++ ((b ∷ m) ++ payload ds) =
          q ∙ ap (λ z. z ++ payload ds) cut ∙ append_assoc o (b ∷ m) (payload ds) in
        let size : length d ≡ length o + suc (length m) = ap length cut ∙ length-append o (b ∷ m) in
        let t : (c.n - length o == 0) ≡ false = ground arith in
        (
          o,
          (b ∷ m) ++ payload ds,
          0,
          refl,
          parts,
          omega (arith, length-append out o),
          rw (t, g)
              (body (b ∷ m) ds s refl e f refl (omega arith) (λ z. cc) (omega arith) y x refl),
          omega (arith, ap length parts, length-append o ((b ∷ m) ++ payload ds)),
        )

    body_round :
        (d : Str) (ds : List Str) (s p : Str)
        → c.check_end ≡ false
        → c.eof ≡ false
        → c.failure ≡ none
        → c.n ≡ length d
        → 0 < length d
        → length d + len < usize_bound
        → L.Yields c.reader (d ++ (b'\r' ∷ b'\n' ∷ s))
        → Encoded len ds s
        → p ≡ d ++ payload ds
        → Stepped out p (2 * length p) (read_body R len c out)
    unfolding read_body
    body_round d ds s p e f g n ne k y x q =
        let t : (c.n == 0) ≡ false = ground arith in
        elim (Bool-cases (len == length out)) [
          | inl b ↦
              rw (t, b)
                (
                  refl,
                  (0, body d ds s refl e f g n (ne-nil d ne) k y x q),
                  λ z. ground (arith, ap length z),
                )
          | inr b ↦
              let free : length out < len = ground arith in
              let fine : leb usize_bound (length out + c.n) ≡ false = ground arith in
              let some_room : 0 < until - length out = ground arith in
              let inside : until - length out ≤ length d = ground arith in
              let within : length out + (until - length out) ≤ len = ground arith in
              let (o, rest, r', w, cut, o_ne, fits, y') =
                L.read_some (until - length out) c.reader (d ++ (b'\r' ∷ b'\n' ∷ s)) y some_room
                  (ne-nil _ (omega (arith, length-append d (b'\r' ∷ b'\n' ∷ s)))) in
              let (m, p', z) = append-split o rest d (b'\r' ∷ b'\n' ∷ s) (sym cut) (omega arith) in
              rw (t, b)
                (rw fine (
                  rw w (
                    body_read d ds s p e f g n k x q o m r' p' (pos-length o o_ne) (omega arith)
                      (rw z at y'))))
        ]

  round-read_body :
      (c : ChunkReader R) (out : Str)
      → c.check_end ≡ false
      → round R len c out ≡ read_body R len c out
  unfolding round
  round-read_body c out e = rw e refl

  module _ (c : ChunkReader R) (out : Str) (room : length out ≤ len) where
    -- The two bytes behind a chunk.
    footer_round :
        (ds : List Str) (s p : Str)
        → c.check_end ≡ true
        → c.eof ≡ false
        → c.failure ≡ none
        → c.n ≡ 0
        → L.Yields c.reader (b'\r' ∷ b'\n' ∷ s)
        → Encoded len ds s
        → p ≡ payload ds
        → Stepped out p (2 * length p + 1) (round R len c out)
    unfolding round str_eq
    footer_round ds s p e f g n y x q =
        elim (Bool-cases (ltb 0 (length out) && ltb (length (R.buffer c.reader)) 2)) [
          | inl b ↦
              rw (e, b)
                (
                  refl,
                  (1, footer ds s refl refl f g n y x q),
                  λ z. absurd (ground (arith, ap length z)),
                )
          | inr b ↦
              let (r', w, y') = L.read_exact_lem 2 c.reader cr_lf s y refl in
              rw (e, b) (rw w (after r' y'))
        ]
      where
        after :
            (r' : R.Rd)
            → L.Yields r' s
            → Stepped out p
                (2 * length p + 1)
                (read_body R len (record c { check_end = false; reader = r' }) out)
        after r' y' =
            header_round (record c { check_end = false; reader = r' }) out room ds s p refl f g n y'
              x q

  -- A round that is not the last one leads on.
  pub round_lem :
      (c : ChunkReader R) (out p : Str) (w : ℕ)
      → length out ≤ len
      → c.eof ≡ false
      → Pending R L len c p w
      → Stepped out p (2 * length p + w) (round R len c out)
  round_lem c out p w room o (header ds s k e f g n y x q) =
      rw (k, round-read_body c out e) (header_round c out room ds s p e f g n y x q)
  round_lem c out p w room o (footer ds s k e f g n y x q) =
      rw k (footer_round c out room ds s p e f g n y x q)
  round_lem c out p w room o (body d ds s k e f g n ne l y x q) =
      let m : 2 * length p ≡ 2 * length p + w = omega arith in
      rw (round-read_body c out e, ← m)
        (body_round c out room d ds s p e f g n (pos-length d ne) l y x q)
  round_lem c out p w room o (finished k e g q) = absurd (let z : true ≡ false = sym e ∙ o in cc)
