-- ===== src/Reader/Buffered.antt =====
-- `BufReader`: a buffer of 8 KiB in front of a source. Each read of the source takes its next
-- event, or as much of it as fits; the end of the list is the end of the stream.
use http_req.Prelude.{
  Option, ℕ, zero, suc, ◌+◌, ◌-◌, Bool, true, false, none, some, List, [], ◌∷◌, ◌++◌, if◌then◌else◌,
  leb, length, take, drop,
}
use http_req.Text.{Str, str, find}
use http_req.Error.{ErrorKind, interrupted, unexpected_eof, IoError, Outcome, ok, err, panic}
use http_req.Reader.{Reader}

pub data Event : Type 0 where
  bytes : Str → Event
  fails : IoError → Event

abbrev pub Source : Type 0
Source = List Event

unfoldable pub source_read : ℕ → Source → Outcome IoError Str × Source
source_read k [] = (ok [], [])
source_read k (fails e ∷ s) = (err e, s)
source_read k (bytes d ∷ s) =
    if leb (length d) k then (ok d, s) else (ok (take k d), bytes (drop k d) ∷ s)

abbrev pub capacity : ℕ
capacity = 8192

pub record BufReader : Type 0 where
  pub buffer : Str
  pub inner : Source

abbrev pub buf_reader : Str → Source → BufReader
buf_reader b s = record { buffer = b; inner = s }

-- `fill_buf`: an empty buffer is filled by one read.
abbrev filled : Outcome IoError Str × Source → Outcome IoError Str × BufReader
filled (ok d, s) = (ok d, buf_reader d s)
filled (err e, s) = (err e, buf_reader [] s)
filled (panic, s) = (panic, buf_reader [] s)

unfoldable pub fill_buf_in : Str → Source → Outcome IoError Str × BufReader
fill_buf_in [] s = filled (source_read capacity s)
fill_buf_in (c ∷ b) s = (ok (c ∷ b), buf_reader (c ∷ b) s)

unfoldable pub fill_buf : BufReader → Outcome IoError Str × BufReader
fill_buf r = fill_buf_in r.buffer r.inner

unfoldable pub consume : ℕ → BufReader → BufReader
consume n r = record r { buffer = drop n r.buffer }

abbrev taken : ℕ → Outcome IoError Str × BufReader → Outcome IoError Str × BufReader
taken k (ok d, r) = (ok (take k d), consume k r)
taken k (err e, r) = (err e, r)
taken k (panic, r) = (panic, r)

abbrev bypass : Outcome IoError Str × Source → Outcome IoError Str × BufReader
bypass (d, s) = (d, buf_reader [] s)

-- A read of at least the capacity goes past an empty buffer.
unfoldable pub read_in : ℕ → Str → Source → Outcome IoError Str × BufReader
read_in k [] s = if leb capacity k then bypass (source_read k s) else taken k (fill_buf_in [] s)
read_in k (c ∷ b) s = taken k (fill_buf_in (c ∷ b) s)

unfoldable pub read : ℕ → BufReader → Outcome IoError Str × BufReader
read k r = read_in k r.buffer r.inner

abbrev pub eof_error : IoError
eof_error = record { kind = unexpected_eof; message = str "failed to fill whole buffer" }

abbrev pub is_interrupted : ErrorKind → Bool
is_interrupted interrupted = true
is_interrupted _ = false

abbrev pub Step : Type 0
Step = Outcome IoError Str × BufReader

abbrev if_interrupted : IoError → BufReader → Step → Step
if_interrupted e r again = if is_interrupted e.kind then again else (err e, r)

-- What a read of `suc k` bytes leads to, `again` being the next round.
abbrev pub exact_after : (ℕ → Str → BufReader → Step) → ℕ → Str → Step → Step
exact_after again k out (ok [], r) = (err eof_error, r)
exact_after again k out (ok (b ∷ d), r) = again (suc k - length (b ∷ d)) (out ++ b ∷ d) r
exact_after again k out (err e, r) = if_interrupted e r (again (suc k) out r)
exact_after again k out (panic, r) = (panic, r)

-- `read_exact`: reads on until `k` bytes are there; an interrupted read is made again.
unfoldable pub read_exact_from : ℕ → ℕ → Str → BufReader → Step
read_exact_from zero k out r = (err eof_error, r)
read_exact_from (suc f) zero out r = (ok out, r)
read_exact_from (suc f) (suc k) out r = exact_after (read_exact_from f) k out (read (suc k) r)

-- Each round but the last takes a byte or an event, so the fuel is enough.
unfoldable pub read_exact : ℕ → BufReader → Step
read_exact k r = read_exact_from (k + length r.inner + 1) k [] r

-- What is buffered and where the byte stands in it.
abbrev pub until_at : (Str → BufReader → Step) → Str → BufReader → Str → Option ℕ → Step
until_at again out r b (some i) = (ok (out ++ take (suc i) b), consume (suc i) r)
until_at again out r [] none = (ok out, r)
until_at again out r (x ∷ b) none = again (out ++ x ∷ b) (consume (length (x ∷ b)) r)

abbrev pub until_after : (Str → BufReader → Step) → ℕ → Str → Step → Step
until_after again c out (ok b, r) = until_at again out r b (find b (c ∷ []))
until_after again c out (err e, r) = if_interrupted e r (again out r)
until_after again c out (panic, r) = (panic, r)

-- `read_until`: takes what is buffered up to the byte `c`, or all of it and goes on.
unfoldable pub read_until_from : ℕ → ℕ → Str → BufReader → Step
read_until_from zero c out r = (ok out, r)
read_until_from (suc f) c out r = until_after (read_until_from f c) c out (fill_buf r)

-- The bytes and the events that are left.
abbrev pub size : Source → ℕ
size [] = 0
size (bytes d ∷ s) = length d + suc (size s)
size (fails e ∷ s) = suc (size s)

-- Each round but the last empties the buffer, and the next one takes a byte or an event.
unfoldable pub read_until : ℕ → BufReader → Outcome IoError Str × BufReader
read_until c r = read_until_from (length r.buffer + size r.inner + 2) c [] r

abbrev part_at : (Str → BufReader → Str) → Str → BufReader → Str → Option ℕ → Str
part_at again out r b (some i) = out ++ take (suc i) b
part_at again out r [] none = out
part_at again out r (x ∷ b) none = again (out ++ x ∷ b) (consume (length (x ∷ b)) r)

abbrev part_after : (Str → BufReader → Str) → ℕ → Str → Step → Str
part_after again c out (ok b, r) = part_at again out r b (find b (c ∷ []))
part_after again c out (err e, r) = if is_interrupted e.kind then again out r else out
part_after again c out (panic, r) = out

-- The vector of `read_until`, also where it fails.
unfoldable pub until_part_from : ℕ → ℕ → Str → BufReader → Str
until_part_from zero c out r = out
until_part_from (suc f) c out r = part_after (until_part_from f c) c out (fill_buf r)

unfoldable pub until_part : ℕ → BufReader → Str
until_part c r = until_part_from (length r.buffer + size r.inner + 2) c [] r

abbrev pub buffered : Reader
buffered = record {
  Rd = BufReader;
  buffer = λ r. r.buffer;
  read = read;
  read_exact = read_exact;
  read_until = read_until;
  until_part = until_part;
  fill_buf = fill_buf;
  consume = consume;
}
