-- ===== src/Chunked/States.antt =====
-- Where a `ChunkReader` stands in a stream in the chunked encoding.
use http_req.Prelude.{
  ℕ, ◌+◌, ◌≤◌, ◌<◌, ◌≡◌, ◌≢◌, refl, true, false, none, List, [], ◌∷◌, ◌++◌, ltb, length, arith,
  length-append,
}
use http_req.Text.{Str, find}
use http_req.Error.{ok}
use http_req.Reader.{Reader, ReaderLaws}
use http_req.Chunked.{usize_bound, ChunkReader, begin_chunk}
use http_req.Chunked.Line.{
  max_line_length, read_chunk_line, trim_trailing_whitespace, trim_from, remove_chunk_extension,
  parse_hex_uint, parse_hex_from,
}
use http_req.Chunked.Stream.{Announces, Encoded, last, stops, chunk, payload}

module _ (R : Reader) (L : ReaderLaws R) (len : ℕ) where
  -- The reader is in front of the rest `p` of the payload. The number counts the rounds that may
  -- pass before a byte is read.
  pub data Pending (c : ChunkReader R) (p : Str) : ℕ → Type 0 where
    header :
        {w : ℕ} (ds : List Str) (s : Str)
        → w ≡ 1
        → c.check_end ≡ false
        → c.eof ≡ false
        → c.failure ≡ none
        → c.n ≡ 0
        → L.Yields c.reader s
        → Encoded len ds s
        → p ≡ payload ds
        → Pending c p w
    footer :
        {w : ℕ} (ds : List Str) (s : Str)
        → w ≡ 1
        → c.check_end ≡ true
        → c.eof ≡ false
        → c.failure ≡ none
        → c.n ≡ 0
        → L.Yields c.reader (b'\r' ∷ b'\n' ∷ s)
        → Encoded len ds s
        → p ≡ payload ds
        → Pending c p w
    body :
        {w : ℕ} (d : Str) (ds : List Str) (s : Str)
        → w ≡ 0
        → c.check_end ≡ false
        → c.eof ≡ false
        → c.failure ≡ none
        → c.n ≡ length d
        → d ≢ []
        → length d + len < usize_bound
        → L.Yields c.reader (d ++ (b'\r' ∷ b'\n' ∷ s))
        → Encoded len ds s
        → p ≡ d ++ payload ds
        → Pending c p w
    finished : {w : ℕ} → w ≡ 0 → c.eof ≡ true → c.failure ≡ none → p ≡ [] → Pending c p w

  pub Pending_le : (c : ChunkReader R) (p : Str) (w : ℕ) → Pending c p w → w ≤ 1
  Pending_le c p w (header ds s k e f g n y x q) = omega (arith, k)
  Pending_le c p w (footer ds s k e f g n y x q) = omega (arith, k)
  Pending_le c p w (body d ds s k e f g n ne l y x q) = omega (arith, k)
  Pending_le c p w (finished k e g q) = omega (arith, k)

  -- The line that announces a chunk.
  pub read_chunk_line_lem :
      (line rest : Str) (n : ℕ) (r : R.Rd)
      → Announces line n
      → L.Yields r (line ++ (b'\n' ∷ rest))
      → (r' : R.Rd) × (read_chunk_line R r
          ≡ (ok (remove_chunk_extension (trim_trailing_whitespace (line ++ b'\n' ∷ []))), r'))
        × L.Yields r' rest
  unfolding read_chunk_line
  read_chunk_line_lem line rest n r a y =
      let (r', q, y') = L.read_until_lem b'\n' r line rest y a.one_line in
      let short : ltb max_line_length (length (line ++ b'\n' ∷ [])) ≡ false =
        ground (arith, a.short, length-append line (b'\n' ∷ [])) in
      (r', rw q (rw short refl), y')

  -- At the end of the stream the line is empty, which is the size 0.
  no_line :
      (r : R.Rd)
      → L.Yields r []
      → (r' : R.Rd) × (read_chunk_line R r ≡ (ok [], r')) × L.Yields r' []
  unfolding read_chunk_line trim_trailing_whitespace trim_from remove_chunk_extension find
  no_line r y = let (r', q, y') = L.read_until_end b'\n' r [] y tt in (r', rw q refl, y')

  -- A line that is read starts a chunk or ends the stream.
  pub begin_chunk_lem :
      (c : ChunkReader R) (ds : List Str) (s : Str)
      → c.check_end ≡ false
      → c.failure ≡ none
      → L.Yields c.reader s
      → Encoded len ds s
      → Pending (begin_chunk R c) (payload ds) 0
  unfolding begin_chunk parse_hex_uint parse_hex_from
  begin_chunk_lem c ds s e f y (stops cut) =
      let (r', q, y') = no_line c.reader (rw cut at y) in rw q (finished refl refl f refl)
  begin_chunk_lem c ds s e f y (last line rest a cut) =
      let (r', q, y') = read_chunk_line_lem line rest 0 c.reader a (rw cut at y) in
      rw (q, a.size) (finished refl refl f refl)
  begin_chunk_lem c ds s e f y (chunk {d = []} line t a ne fits more cut) = absurd (ne refl)
  begin_chunk_lem c ds s e f y (chunk {d = b ∷ d} {ds = ds'} line t a ne fits more cut) =
      let (r', q, y') =
        read_chunk_line_lem line ((b ∷ d) ++ (b'\r' ∷ b'\n' ∷ t)) (length (b ∷ d)) c.reader a
          (rw cut at y) in
      rw (q, a.size) (body (b ∷ d) ds' t refl e (ground arith) f refl ne fits y' more refl)
