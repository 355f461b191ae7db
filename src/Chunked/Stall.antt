-- ===== src/Chunked/Stall.antt =====
-- What `ChunkReader::read` does where the stream ends inside a chunk.
use http_req.Prelude.{
  ℕ, zero, suc, ◌+◌, ◌-◌, ◌<◌, ◌≡◌, refl, ap, ◌∙◌, true, false, ◌&&◌, not, none, [], ◌∷◌, ◌++◌,
  if◌then◌else◌, if-false, ◌==◌, ltb, leb, length, arith, length-append, ne-nil, is_some,
}
use http_req.Text.{Str}
use http_req.Error.{ok}
use http_req.Chunked.Decode.{goes_round}
use http_req.Chunked.Stream.{Announces}
use http_req.Chunked.States.{read_chunk_line_lem}
use http_req.Reader.{Reader, ReaderLaws}
use http_req.Chunked.{
  usize_bound, ChunkReader, from_reader, begin_chunk, again, after_read, read_body, round,
  out_of_fuel, follow, read_loop, read,
}

module _ (R : Reader) (L : ReaderLaws R) (len : ℕ) where
  -- In a chunk, with `d` left on the stream, which is less than the chunk has; the buffer has room
  -- for more.
  pub record Cut (c : ChunkReader R) (out d : Str) : Type 0 where
    pub no_footer : c.check_end ≡ false
    pub no_end : c.eof ≡ false
    pub no_failure : c.failure ≡ none
    pub missing : length d < c.n
    pub fits : length out + c.n < usize_bound
    pub room : length out + length d < len
    pub ended : L.Yields c.reader d

  after_some :
      (c : ChunkReader R) (out d : Str) (r : R.Rd)
      → length d < c.n
      → after_read R c out (ok d, r)
        ≡ again (record c { n = c.n - length d; reader = r }) (out ++ d)
  after_some c out d r m =
      ap (λ x. again x (out ++ d))
        (if-false (c.n - length d == 0 && not (is_some c.failure))
          (record c { n = c.n - length d; reader = r; check_end = true })
          (record c { n = c.n - length d; reader = r }) (ground (arith, m)))

  if-pos : (a b x : ℕ) → x < a → x < b → 0 < (if ltb a b then a else b) - x
  if-pos a b x l k = ground arith

  Cut-read_body :
      (c : ChunkReader R) (out d : Str)
      → Cut c out d
      → read_body R len c out
        ≡ after_read R c out (
            R.read
              ((if ltb (length out + c.n) len then length out + c.n else len) - length out)
              c.reader)
  unfolding read_body
  Cut-read_body c out d h =
      if-false (c.n == 0) _ _ (ground (arith, h.missing))
      ∙ if-false (len == length out) _ _ (ground (arith, h.room))
      ∙ if-false (leb usize_bound (length out + c.n)) _ _ (ground (arith, h.fits))

  read_part :
      (k : ℕ) (r : R.Rd) (d : Str)
      → 0 < k
      → L.Yields r d
      → (x rest : Str) × (r' : R.Rd) × (R.read k r ≡ (ok x, r'))
        × (d ≡ x ++ rest)
        × L.Yields r' rest
  read_part k r [] l y = ([], [], r, L.read_end k r y, refl, y)
  read_part k r (b ∷ d) l y =
      let (x, rest, r', q, cut, ne, le, y') =
        L.read_some k r (b ∷ d) y l (ne-nil (b ∷ d) (omega arith)) in
      (x, rest, r', q, cut, y')

  -- A round reads some of what is left, if there is any, and goes on in the same situation.
  Cut-round :
      (c : ChunkReader R) (out d : Str)
      → Cut c out d
      → (c' : ChunkReader R) × (out' d' : Str) × (round R len c out ≡ again c' out')
        × Cut c' out' d'
  unfolding round
  Cut-round c out d h =
      let k = (if ltb (length out + c.n) len then length out + c.n else len) - length out in
      let (x, rest, r, q, cut, y) =
        read_part k c.reader d
          (if-pos (length out + c.n) len (length out) (omega (arith, h.missing))
            (omega (arith, h.room)))
          h.ended in
      let size : length d ≡ length x + length rest = ap length cut ∙ length-append x rest in
      (
        record c { n = c.n - length x; reader = r },
        out ++ x,
        rest,
        if-false c.check_end _ _ h.no_footer
            ∙ Cut-read_body c out d h
            ∙ ap (after_read R c out) q
            ∙ after_some c out x r (omega (arith, h.missing)),
        record {
          no_footer = h.no_footer;
          no_end = h.no_end;
          no_failure = h.no_failure;
          missing = omega (arith, h.missing);
          fits = omega (arith, h.fits, h.missing, length-append out x);
          room = omega (arith, h.room, length-append out x);
          ended = y;
        },
      )

  Cut-read_loop :
      (f : ℕ) (c : ChunkReader R) (out d : Str)
      → Cut c out d
      → read_loop R f len c out ≡ out_of_fuel
  unfolding read_loop
  Cut-read_loop zero c out d h = refl
  Cut-read_loop (suc f) c out d h =
      let (c', out', d', q, h') = Cut-round c out d h in
      goes_round R L len f c out h.no_end h.no_failure
      ∙ ap (follow R (read_loop R f len)) q
      ∙ Cut-read_loop f c' out' d' h'

-- If the stream ends inside a chunk, and the buffer has room for more than what there is of it, the
-- loop of `read` comes round again and again without progress and never ends: no number of rounds
-- is enough.
pub read-truncated :
    (R : Reader) (L : ReaderLaws R) (len fuel n : ℕ) (line d : Str) (r : R.Rd)
    → Announces line n
    → L.Yields r (line ++ (b'\n' ∷ d))
    → length d < n
    → n < usize_bound
    → length d < len
    → read R fuel len (from_reader R r) ≡ out_of_fuel
unfolding read read_loop from_reader round read_body begin_chunk
read-truncated R L len zero n line d r a y m fits room = refl
read-truncated R L len (suc f) n line d r a y m fits room =
    let (r', q, y') = read_chunk_line_lem R L len line d n r a y in
    rw (q, a.size)
      (Cut-read_loop R L len f _ [] d (record {
        no_footer = refl;
        no_end = ground (arith, m);
        no_failure = refl;
        missing = m;
        fits = omega (arith, fits);
        room = omega (arith, room);
        ended = y';
      }))
