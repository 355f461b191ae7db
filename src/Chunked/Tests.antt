-- ===== src/Chunked/Tests.antt =====
-- The test vectors of src/chunked.rs, and the theorems about its reader at concrete inputs.
use http_req.Prelude.{arith, length, ◌≤◌, ◌↔◌, ℕ, ◌≡◌, refl, false, none, some, List, [], ◌∷◌}
use http_req.Text.{Str, str, str_eq, find, contains}
use http_req.Error.{other, IoError, Outcome, ok, err}
use http_req.Text.Search.{lacks→Lacks}
use http_req.Reader.Laws.{buffered_laws, buffered-Yields}
use http_req.Chunked.Hex.{base_16, parse_hex_uint_iff}
use http_req.Chunked.Stream.{Announces, Announces-plain, ArePlain, Encoded, last, chunk, payload}
use http_req.Chunked.States.{Pending, header}
use http_req.Chunked.Decode.{Reads, read-Reads}
use http_req.Chunked.Whole.{read_all, read_all-from_reader}
use http_req.Chunked.Stall.{read-truncated}
use http_req.Chunked.Refused.{reported, here, Refused, bad_size, read-Refused}
use http_req.Reader.Buffered.{
  BufReader, Source, bytes, buffered, buf_reader, source_read, fill_buf_in, fill_buf, consume,
  read_in, read as read_buf, read_exact_from, read_exact, read_until_from, read_until,
}
use http_req.Chunked.{
  ChunkReader, from_reader, begin_chunk, read_body, round, read_loop, read, ReadResult, returns,
  panics, out_of_fuel, chunk_header_avaliable,
}
use http_req.Chunked.Line.{
  is_ascii_space, hex_value, parse_hex_from, parse_hex_uint, remove_chunk_extension, trim_from,
  trim_trailing_whitespace, read_chunk_line,
}

chunked : Unit {0}
unfolding from_reader begin_chunk read_body round read_loop read chunk_header_avaliable
    is_ascii_space hex_value parse_hex_from parse_hex_uint remove_chunk_extension trim_from
    trim_trailing_whitespace read_chunk_line source_read fill_buf_in fill_buf consume read_in
    read_buf read_exact_from read_exact read_until_from read_until str_eq find contains
chunked = tt

abbrev reader : Source → ChunkReader buffered
reader s = from_reader buffered (buf_reader [] s)

abbrev answer : ReadResult buffered → Outcome IoError Str
answer (returns r c) = r
answer panics = ok (str "panics")
answer out_of_fuel = ok (str "out of fuel")

-- The first result and the one after it.
abbrev two_reads : ℕ → Source → List (Outcome IoError Str)
two_reads len s = next (read buffered 40 len (reader s))
  where
    next : ReadResult buffered → List (Outcome IoError Str)
    next (returns r c) = r ∷ answer (read buffered 40 len c) ∷ []
    next panics = []
    next out_of_fuel = []

chunked_tests :
    (answer (read buffered 40 10 (reader (bytes (str "3\r\nfoo\r\n3\r\nbar\r\n0\r\n") ∷ [])))
      ≡ ok (str "foobar"))
    × (two_reads 3 (bytes (str "3\r\nfoo\r\n0\r\n") ∷ []) ≡ ok (str "foo") ∷ ok [] ∷ [])
    × (answer (
          read buffered 40 50 (
            reader (
              bytes (str "7;ext=\"q\"\r\nhello, \r\n1")
              ∷ bytes (str "7\r\nworld! 0123456789abcdef\r\n0;x=y\r\n")
              ∷ [])))
        ≡ ok (str "hello, "))
    × (answer (read buffered 40 50 (reader (bytes (str "7\r\n123") ∷ []))) ≡ ok (str "out of fuel"))
    × (answer (read buffered 40 50 (reader (bytes (str "1\r\na\r\nffffffffffffffff\r\nb") ∷ [])))
        ≡ ok (str "panics"))
unfolding chunked
chunked_tests = (refl, refl, refl, refl, refl)

abbrev text : Str
text = str "3\r\nfoo\r\n0\r\n"

abbrev source : BufReader
source = buf_reader [] (bytes text ∷ [])

announced :
    (d : ℕ) {n : ℕ} → ArePlain (d ∷ []) → base_16 0 (d ∷ []) ≡ some n → Announces (d ∷ b'\r' ∷ []) n
announced d p v = Announces-plain (d ∷ []) p (omega arith) v

pub announced_3 : Announces (str "3\r") 3
unfolding chunked
announced_3 = announced b'3' (refl, refl, tt) refl

pub announced_0 : Announces (str "0\r") 0
unfolding chunked
announced_0 = announced b'0' (refl, refl, tt) refl

text-Encoded : Encoded 10 (str "foo" ∷ []) text
text-Encoded =
    chunk (str "3\r") (str "0\r\n") announced_3 (λ e. cc) (omega arith)
      (last (str "0\r") [] announced_0 refl) refl

source_yields : buffered_laws.Yields source text
source_yields = buffered-Yields source text (record { no_fail = ((λ e. cc), tt); left = refl })

read_all-from_reader_example :
    (c : ChunkReader buffered) × (read_all buffered 4 8 10 (from_reader buffered source)
      ≡ returns (ok (payload (str "foo" ∷ []))) c)
read_all-from_reader_example =
    read_all-from_reader buffered buffered_laws 10 8 4 (str "foo" ∷ []) text source (omega arith)
      source_yields text-Encoded (omega arith) (omega arith)

text_pending : Pending buffered buffered_laws 10 (from_reader buffered source) (str "foo") 1
unfolding from_reader
text_pending = header (str "foo" ∷ []) text refl refl refl refl refl source_yields text-Encoded refl

read-Reads_example :
    Reads buffered buffered_laws 10 (str "foo") (read buffered 8 10 (from_reader buffered source))
read-Reads_example =
    read-Reads buffered buffered_laws 10 8 (from_reader buffered source) (str "foo") 1 (omega arith)
      text_pending

abbrev cut_source : BufReader
cut_source = buf_reader [] (bytes (str "3\r\nfo") ∷ [])

cut_yields : buffered_laws.Yields cut_source (str "3\r\nfo")
cut_yields =
    buffered-Yields cut_source (str "3\r\nfo") (record { no_fail = ((λ e. cc), tt); left = refl })

read-truncated_example : read buffered 1000 10 (from_reader buffered cut_source) ≡ out_of_fuel
read-truncated_example =
    read-truncated buffered buffered_laws 10 1000 3 (str "3\r") (str "fo") cut_source announced_3
      cut_yields (omega arith) (omega arith) (omega arith)

parse_hex_uint_iff_example :
    (parse_hex_uint (str "1aF") ≡ ok 431)
    ↔ ((length (str "1aF") ≤ 16) × (base_16 0 (str "1aF") ≡ some 431))
parse_hex_uint_iff_example = parse_hex_uint_iff (str "1aF") 431

-- A size that is not hexadecimal.
abbrev bad_source : BufReader
bad_source = buf_reader [] (bytes (str "0g\r\nfoo") ∷ [])

bad_yields : buffered_laws.Yields bad_source (str "0g\r\nfoo")
bad_yields =
    buffered-Yields bad_source (str "0g\r\nfoo") (record { no_fail = ((λ e. cc), tt); left = refl })

abbrev bad_byte : IoError
bad_byte = record { kind = other; message = str "invalid byte in chunk length" }

bad_source-Refused : Refused buffered buffered_laws 10 (from_reader buffered bad_source) bad_byte
unfolding chunked
bad_source-Refused = here (
    bad_size (str "0g\r") (str "foo") (str "invalid byte in chunk length") refl refl bad_yields
      (lacks→Lacks b'\n' (str "0g\r") refl) (omega arith) refl refl)

not_at_end :
    ((from_reader buffered bad_source).eof ≡ false)
    × ((from_reader buffered bad_source).failure ≡ none)
unfolding chunked
not_at_end = (refl, refl)

read-Refused_example :
    (c : ChunkReader buffered) × (read buffered 3 10 (from_reader buffered bad_source)
      ≡ returns (err (reported bad_byte)) c)
    × (read buffered 2 7 c ≡ returns (err (reported bad_byte)) c)
read-Refused_example =
    read-Refused buffered buffered_laws 10 1 (from_reader buffered bad_source) bad_byte 7
      (omega arith) not_at_end.0 not_at_end.1 bad_source-Refused
