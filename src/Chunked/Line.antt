-- ===== src/Chunked/Line.antt =====
-- src/chunked.rs: the line in front of a chunk, with the chunk's size in hexadecimal.
use Prim.Native.Nat.{bit_or}
use http_req.Prelude.{
  ℕ, zero, suc, ◌+◌, ◌-◌, ◌*◌, ◌%◌, ◌^◌, Bool, true, ◌&&◌, ◌||◌, not, Option, none, some, [], ◌∷◌,
  if◌then◌else◌, ◌==◌, leb, ltb, length, take, drop,
}
use http_req.Text.{Str, str, find}
use http_req.Error.{other, IoError, Outcome, ok, err, panic}
use http_req.Reader.{Reader}

abbrev pub max_line_length : ℕ
max_line_length = 4096

abbrev pub error_line_too_long : IoError
error_line_too_long = record { kind = other; message = str "header line too long" }

unfoldable pub is_ascii_space : ℕ → Bool
is_ascii_space b = b == b' ' || b == b'\t' || b == b'\n' || b == b'\r'

-- `match *v` of `parse_hex_uint`.
unfoldable pub hex_value : ℕ → Option ℕ
hex_value v =
    if leb b'0' v && leb v b'9'
    then some (v - b'0')
    else if leb b'a' v && leb v b'f'
    then some (v - b'a' + 10)
    else if leb b'A' v && leb v b'F'
    then some (v - b'A' + 10)
    else none

-- The loop at byte `i` with the number read so far.
unfoldable pub parse_hex_from : ℕ → ℕ → Str → Outcome Str ℕ
parse_hex_from i n [] = ok n
parse_hex_from i n (v ∷ rest) =
    if i == 16 then err (str "http chunk length too large") else elim (hex_value v) [
      | none ↦ err (str "invalid byte in chunk length")
      | some vv ↦ parse_hex_from (suc i) (bit_or (n * 2 ^ 4 % 2 ^ 64) vv) rest
    ]

unfoldable pub parse_hex_uint : Str → Outcome Str ℕ
parse_hex_uint = parse_hex_from 0 0

-- `v.resize(idx, 0)` at an index inside the vector drops what stands behind it.
unfoldable pub remove_chunk_extension : Str → Str
remove_chunk_extension v = elim (find v (b';' ∷ [])) [ none ↦ v | some idx ↦ take idx v ]

abbrev pub head_is_space : Str → Bool
head_is_space [] = true
head_is_space (c ∷ v) = is_ascii_space c

-- The loop over `i` from `k - 1` down to 0.
unfoldable pub trim_from : ℕ → Str → Str
trim_from zero v = []
trim_from (suc i) v =
    let rest = trim_from i v in if not (head_is_space (drop i v)) then take (suc i) v else rest

-- The last byte is not looked at.
unfoldable pub trim_trailing_whitespace : Str → Str
trim_trailing_whitespace v = trim_from (length v - 1) v

module _ (R : Reader) where
  open R use {Rd}

  abbrev pub line_of : Outcome IoError Str × Rd → Outcome IoError Str × Rd
  line_of (ok line, r) =
      if ltb max_line_length (length line)
      then (err error_line_too_long, r)
      else (ok (remove_chunk_extension (trim_trailing_whitespace line)), r)
  line_of (err e, r) = (err e, r)
  line_of (panic, r) = (panic, r)

  unfoldable pub read_chunk_line : Rd → Outcome IoError Str × Rd
  read_chunk_line r = line_of (R.read_until b'\n' r)
