-- ===== src/Chunked/Refused.antt =====
-- The errors of `ChunkReader::read`.
use http_req.Prelude.{
  ℕ, suc, ◌+◌, ◌-◌, ◌≤◌, ◌<◌, ◌≡◌, ◌≢◌, refl, sym, ap, ◌∙◌, true, false, ◌&&◌, not, none, some, [],
  ◌∷◌, ◌++◌, if◌then◌else◌, ◌==◌, ltb, leb, length, arith, length-append, Bool-cases, inl, inr,
  if-true, if-false,
}
use http_req.Text.{Str, str, str_eq}
use http_req.Text.Search.{Lacks, str_eq→eq}
use http_req.Error.{other, IoError, err}
use http_req.Reader.{Reader, ReaderLaws}
use http_req.Chunked.{
  usize_bound, cr_lf, after_footer, after_read, mark_end, finish_with,
  error_malformed_chunked_encoding, ChunkReader, begin_chunk, stop, again, read_body, round,
  wrapped, returns, follow, read_loop, read,
}
use http_req.Chunked.Line.{
  max_line_length, error_line_too_long, parse_hex_uint, remove_chunk_extension,
  trim_trailing_whitespace, read_chunk_line,
}
use http_req.Chunked.Decode.{goes_round}

module _ (R : Reader) (L : ReaderLaws R) (len : ℕ) where
  -- Where a reader is stopped by an error: at a chunk's end that is not CR LF; at a line that is no
  -- size, or too long; by a failure of the reader below, at a line or in a chunk.
  pub data Stopped (c : ChunkReader R) (e : IoError) : Type 0 where
    bad_footer :
        (a b : ℕ) (rest : Str)
        → c.check_end ≡ true
        → L.Yields c.reader (a ∷ b ∷ rest)
        → a ∷ b ∷ [] ≢ cr_lf
        → e ≡ error_malformed_chunked_encoding
        → Stopped c e
    bad_size :
        (line rest message : Str)
        → c.check_end ≡ false
        → c.n ≡ 0
        → L.Yields c.reader (line ++ (b'\n' ∷ rest))
        → Lacks b'\n' line
        → length line < max_line_length
        → parse_hex_uint (remove_chunk_extension (trim_trailing_whitespace (line ++ b'\n' ∷ [])))
          ≡ err message
        → e ≡ record { kind = other; message = message }
        → Stopped c e
    long_line :
        (line rest : Str)
        → c.check_end ≡ false
        → c.n ≡ 0
        → L.Yields c.reader (line ++ (b'\n' ∷ rest))
        → Lacks b'\n' line
        → max_line_length ≤ length line
        → e ≡ error_line_too_long
        → Stopped c e
    no_line :
        (r : R.Rd)
        → c.check_end ≡ false
        → c.n ≡ 0
        → R.read_until b'\n' c.reader ≡ (err e, r)
        → Stopped c e
    no_data :
        (r : R.Rd)
        → c.check_end ≡ false
        → 0 < c.n
        → c.n < usize_bound
        → R.read (if ltb c.n len then c.n else len) c.reader ≡ (err e, r)
        → Stopped c e

  -- Also behind a chunk's end at which the reader below fails, which is dropped.
  pub data Refused (c : ChunkReader R) (e : IoError) : Type 0 where
    here : Stopped c e → Refused c e
    behind_end :
        (x : IoError) (r : R.Rd)
        → c.check_end ≡ true
        → R.read_exact 2 c.reader ≡ (err x, r)
        → Stopped (record c { check_end = false; reader = r }) e
        → Refused c e

  failed :
      (f k : ℕ) (c : ChunkReader R) (out : Str) {e : IoError}
      → c.failure ≡ some e
      → read_loop R (suc f) k c out ≡ returns (err (wrapped R e)) c
  unfolding read_loop
  failed f k c out g = elim (Bool-cases c.eof) [ inl t ↦ rw (t, g) refl | inr t ↦ rw (t, g) refl ]

  -- A round that meets the error ends the loop, or leads to the test that ends it.
  pub data Meets (c : ChunkReader R) (e : IoError) : Type 0 where
    at_once : (c' : ChunkReader R) → c'.failure ≡ some e → round R len c [] ≡ stop c' [] → Meets c e
    at_test :
        (c' : ChunkReader R) → c'.failure ≡ some e → round R len c [] ≡ again c' [] → Meets c e

  bad_footer-Meets :
      (c : ChunkReader R) (a b : ℕ) (rest : Str)
      → c.check_end ≡ true
      → L.Yields c.reader (a ∷ b ∷ rest)
      → a ∷ b ∷ [] ≢ cr_lf
      → Meets c error_malformed_chunked_encoding
  unfolding round
  bad_footer-Meets c a b rest k y ne =
      let (r, q, y') = L.read_exact_lem 2 c.reader (a ∷ b ∷ []) rest y refl in
      let other : str_eq (a ∷ b ∷ []) cr_lf ≡ false =
        elim (Bool-cases (str_eq (a ∷ b ∷ []) cr_lf)) [
          | inl t ↦ absurd (ne (str_eq→eq (a ∷ b ∷ []) cr_lf t))
          | inr t ↦ t
        ] in
      at_once (record c { failure = some error_malformed_chunked_encoding; reader = r }) refl
        (if-true c.check_end _ _ k
          ∙ ap (after_footer R len c []) q
          ∙ if-true (not (str_eq (a ∷ b ∷ []) cr_lf)) _ _ (ap not other))

  line-Meets :
      (c : ChunkReader R) {e : IoError}
      → c.check_end ≡ false
      → c.n ≡ 0
      → (begin_chunk R c).failure ≡ some e
      → Meets c e
  unfolding round read_body
  line-Meets c k z h =
      at_test (begin_chunk R c) h
        (if-false c.check_end _ _ k ∙ if-true (c.n == 0) _ _ (ground (arith, z)))

  behind_end-Meets :
      (c : ChunkReader R) {e : IoError} (x : IoError) (r : R.Rd)
      → c.check_end ≡ true
      → R.read_exact 2 c.reader ≡ (err x, r)
      → Meets (record c { check_end = false; reader = r }) e
      → Meets c e
  unfolding round
  behind_end-Meets c x r k q h = elim h [
    | at_once c' g z ↦ at_once c' g (if-true c.check_end _ _ k ∙ ap (after_footer R len c []) q ∙ z)
    | at_test c' g z ↦ at_test c' g (if-true c.check_end _ _ k ∙ ap (after_footer R len c []) q ∙ z)
  ]

  Stopped-Meets : (c : ChunkReader R) (e : IoError) → 0 < len → Stopped c e → Meets c e
  unfolding round read_body begin_chunk read_chunk_line
  Stopped-Meets c e room (bad_footer a b rest k y ne ee) =
      rw ee (bad_footer-Meets c a b rest k y ne)
  Stopped-Meets c e room (bad_size line rest m k z y l s v ee) =
      let (r, q, y') = L.read_until_lem b'\n' c.reader line rest y l in
      let short : ltb max_line_length (length (line ++ b'\n' ∷ [])) ≡ false =
        ground (arith, s, length-append line (b'\n' ∷ [])) in
      line-Meets c k z (rw q (rw short (rw v (ap some (sym ee)))))
  Stopped-Meets c e room (long_line line rest k z y l s ee) =
      let (r, q, y') = L.read_until_lem b'\n' c.reader line rest y l in
      let long : ltb max_line_length (length (line ++ b'\n' ∷ [])) ≡ true =
        ground (arith, s, length-append line (b'\n' ∷ [])) in
      line-Meets c k z (rw q (rw long (ap some (sym ee))))
  Stopped-Meets c e room (no_line r k z q) = line-Meets c k z (rw q refl)
  Stopped-Meets c e room (no_data r k z b q) =
      let part : (if ltb (0 + c.n) len then 0 + c.n else len) - 0
          ≡ (if ltb c.n len then c.n else len) =
        ground arith in
      let after : ChunkReader R = record c { failure = some e; reader = r } in
      let unmarked : mark_end R after ≡ after =
        if-false (c.n == 0 && false) _ _ (ground (arith, z)) in
      at_test after refl (
        if-false c.check_end _ _ k
        ∙ if-false (c.n == 0) _ _ (ground (arith, z))
        ∙ if-false (len == 0) _ _ (ground (arith, room))
        ∙ if-false (leb usize_bound (0 + c.n)) _ _ (ground (arith, b))
        ∙ ap (λ x. after_read R c [] (R.read x c.reader)) part
        ∙ ap (after_read R c []) q
        ∙ ap (λ x. again x []) unmarked)

  Refused-Meets : (c : ChunkReader R) (e : IoError) → 0 < len → Refused c e → Meets c e
  Refused-Meets c e room (here h) = Stopped-Meets c e room h
  Refused-Meets c e room (behind_end x r k q h) =
      behind_end-Meets c x r k q
        (Stopped-Meets (record c { check_end = false; reader = r }) e room h)

  Meets-read :
      (f : ℕ) (c : ChunkReader R) (e : IoError)
      → c.eof ≡ false
      → c.failure ≡ none
      → Meets c e
      → (c' : ChunkReader R) × (c'.failure ≡ some e)
        × (read_loop R (suc (suc f)) len c [] ≡ returns (err (wrapped R e)) c')
  Meets-read f c e o g (at_once c' h q) = (
    c',
    h,
    goes_round R L len (suc f) c [] o g
        ∙ ap (follow R (read_loop R (suc f) len)) q
        ∙ ap (λ x. finish_with R x c' []) h,
  )
  Meets-read f c e o g (at_test c' h q) = (
    c',
    h,
    goes_round R L len (suc f) c [] o g
        ∙ ap (follow R (read_loop R (suc f) len)) q
        ∙ failed f len c' [] h,
  )

-- What a read gives for an error.
abbrev pub reported : IoError → IoError
reported e = record { kind = e.kind; message = str "wrapper by chunked: " ++ e.message }

-- A `ChunkReader` that stands at an error when a read begins reports it, with its kind and its text
-- behind "wrapper by chunked: ": a chunk's end that is not CR LF, a line that is no size or too long,
-- a failure of the reader below, at a line or in a chunk. A failure of the reader below at a
-- chunk's end is not reported: what stands behind it is. Every further read reports the same error.
pub read-Refused :
    (R : Reader) (L : ReaderLaws R) (len f : ℕ) (c : ChunkReader R) (e : IoError) (k : ℕ)
    → 0 < len
    → c.eof ≡ false
    → c.failure ≡ none
    → Refused R L len c e
    → (c' : ChunkReader R) × (read R (suc (suc f)) len c ≡ returns (err (reported e)) c')
      × (read R (suc f) k c' ≡ returns (err (reported e)) c')
unfolding read
read-Refused R L len f c e k room o g h =
    let (c', h', q) = Meets-read R L len f c e o g (Refused-Meets R L len c e room h) in
    (c', q, failed R L len f k c' [] h')
