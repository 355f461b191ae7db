-- ===== src/Chunked.antt =====
-- src/chunked.rs: the reader that takes the chunked transfer encoding apart.
pub mod Line
pub mod Bits
pub mod Digits
pub mod Hex
pub mod Trim
pub mod Stream
pub mod States
pub mod Rounds
pub mod Decode
pub mod Whole
pub mod Stall
pub mod Refused
pub mod Tests
use http_req.Prelude.{
  ℕ, zero, suc, ◌+◌, ◌-◌, ◌^◌, Bool, true, false, ◌&&◌, ◌||◌, not, Option, none, some, List, [],
  ◌∷◌, ◌++◌, if◌then◌else◌, ◌==◌, leb, ltb, length, is_some,
}
use http_req.Text.{Str, str, str_eq, contains}
use http_req.Error.{ErrorKind, other, IoError, Outcome, ok, err, panic}
use http_req.Reader.{Reader}
use Line.{read_chunk_line, parse_hex_uint}

abbrev pub usize_bound : ℕ
usize_bound = 2 ^ 64

abbrev pub cr_lf : Str
cr_lf = b'\r' ∷ b'\n' ∷ []

abbrev pub error_malformed_chunked_encoding : IoError
error_malformed_chunked_encoding = record {
  kind = other;
  message = str "malformed chunked encoding";
}

module _ (R : Reader) where
  open R use {Rd, buffer, read_exact}

  pub record ChunkReader : Type 0 where
    pub check_end : Bool
    pub eof : Bool
    pub failure : Option IoError
    pub n : ℕ
    pub reader : Rd

  unfoldable pub from_reader : Rd → ChunkReader
  from_reader r = record { check_end = false; eof = false; failure = none; n = 0; reader = r }

  unfoldable pub chunk_header_avaliable : ChunkReader → Bool
  chunk_header_avaliable c = contains (buffer c.reader) (b'\n' ∷ [])

  -- `match parse_hex_uint(line)` of `begin_chunk`.
  abbrev pub with_size : ChunkReader → Outcome Str ℕ → ChunkReader
  with_size c (ok v) = record c { n = v }
  with_size c (err e) = record c { failure = some (record { kind = other; message = e }) }
  with_size c panic = c

  abbrev pub set_eof : ChunkReader → ChunkReader
  set_eof c = record c { eof = c.n == 0 }

  abbrev pub with_line : ChunkReader → Outcome IoError Str × Rd → ChunkReader
  with_line c (ok line, r) = set_eof (with_size (record c { reader = r }) (parse_hex_uint line))
  with_line c (err e, r) = record c { failure = some e; reader = r }
  with_line c (panic, r) = record c { reader = r }

  unfoldable pub begin_chunk : ChunkReader → ChunkReader
  begin_chunk c = with_line c (read_chunk_line R c.reader)

  -- How a part of the loop's body goes on: `break`, the next round or the rest of this one, a panic.
  pub data Flow : Type 0 where
    stop : ChunkReader → Str → Flow
    again : ChunkReader → Str → Flow
    overflow : Flow

  -- `if self.n == 0 && self.err.is_none() { self.check_end = true }`
  abbrev pub mark_end : ChunkReader → ChunkReader
  mark_end c = if c.n == 0 && not (is_some c.failure) then record c { check_end = true } else c

  abbrev pub after_read : ChunkReader → Str → Outcome IoError Str × Rd → Flow
  after_read c out (ok d, r) =
      again (mark_end (record c { n = c.n - length d; reader = r })) (out ++ d)
  after_read c out (err e, r) = again (mark_end (record c { failure = some e; reader = r })) out
  after_read c out (panic, r) = overflow

  -- The body of the loop behind the check of a chunk's end. `out` is what has been written into
  -- the buffer, which has room for `len` bytes. An overflow of `consumed + self.n` panics: with
  -- overflow checks at the addition, without them at the slice, whose end is then before its start.
  unfoldable pub read_body : ℕ → ChunkReader → Str → Flow
  read_body len c out =
      if c.n == 0
      then if ltb 0 (length out) && not (chunk_header_avaliable c)
        then stop c out
        else again (begin_chunk c) out
      else if len == length out
      then stop c out
      else if leb usize_bound (length out + c.n)
      then overflow
      else let end = if ltb (length out + c.n) len then length out + c.n else len in
        after_read c out (R.read (end - length out) c.reader)

  abbrev pub after_footer : ℕ → ChunkReader → Str → Outcome IoError Str × Rd → Flow
  after_footer len c out (ok footer, r) =
      if not (str_eq footer cr_lf)
      then stop (record c { failure = some error_malformed_chunked_encoding; reader = r }) out
      else read_body len (record c { check_end = false; reader = r }) out
  after_footer len c out (err e, r) = read_body len (record c { check_end = false; reader = r }) out
  after_footer len c out (panic, r) = overflow

  -- One round of the loop.
  unfoldable pub round : ℕ → ChunkReader → Str → Flow
  round len c out =
      if c.check_end
      then if ltb 0 (length out) && ltb (length (buffer c.reader)) 2
        then stop c out
        else after_footer len c out (read_exact 2 c.reader)
      else read_body len c out

  pub data ReadResult : Type 0 where
    returns : Outcome IoError Str → ChunkReader → ReadResult
    panics : ReadResult
    out_of_fuel : ReadResult

  abbrev pub wrapped : IoError → IoError
  wrapped e = record e { message = str "wrapper by chunked: " ++ e.message }

  -- `match self.err.as_ref()` behind the loop.
  abbrev pub finish_with : Option IoError → ChunkReader → Str → ReadResult
  finish_with none c out = returns (ok out) c
  finish_with (some e) c out = returns (err (wrapped e)) c

  abbrev pub finish : ChunkReader → Str → ReadResult
  finish c out = finish_with c.failure c out

  abbrev pub follow : (ChunkReader → Str → ReadResult) → Flow → ReadResult
  follow next (stop c out) = finish c out
  follow next (again c out) = next c out
  follow next overflow = panics

  unfoldable pub read_loop : ℕ → ℕ → ChunkReader → Str → ReadResult
  read_loop zero len c out = out_of_fuel
  read_loop (suc f) len c out =
      if c.eof || is_some c.failure
      then finish c out
      else follow (read_loop f len) (round len c out)

  -- `Read::read` into a buffer of `len` bytes; the loop has no bound of its own.
  unfoldable pub read : ℕ → ℕ → ChunkReader → ReadResult
  read fuel len c = read_loop fuel len c []

  -- `BufRead`: both go to the inner reader, past the decoding.
  unfoldable pub fill_buf : ChunkReader → Outcome IoError Str × ChunkReader
  fill_buf c = let (b, r) = R.fill_buf c.reader in (b, record c { reader = r })

  unfoldable pub consume : ℕ → ChunkReader → ChunkReader
  consume amt c = record c { reader = R.consume amt c.reader }
