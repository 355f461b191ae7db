-- ===== src/Stream/Head.antt =====
-- src/stream.rs: `read_head`, which takes the head of a response line by line. The bytes that a failed
-- `read_until` leaves in the vector stay there.
pub mod Laws
pub mod Message
mod Tests
use http_req.Prelude.{
  ℕ, zero, suc, ◌-◌, Bool, ◌&&◌, Option, none, some, [], ◌∷◌, ◌++◌, if◌then◌else◌, ◌==◌, length,
  drop,
}
use http_req.Text.{Str, str_eq}
use http_req.Error.{IoError, Outcome, ok, err, panic}
use http_req.Reader.{Reader}
use http_req.Chunked.{cr_lf}

abbrev pub lf : ℕ
lf = b'\n'

-- `len == 2 && &buf[full_len - 2..] == CR_LF`, where `len` bytes have just come into `buf`.
unfoldable pub ends_blank : ℕ → Str → Bool
ends_blank len buf = len == 2 && str_eq (drop (length buf - 2) buf) cr_lf

module _ (R : Reader) where
  open R use {Rd, read_until, until_part}

  -- The body of the loop, `rest` being the next rounds. `none` is that there is no result: the fuel was
  -- not enough, or the reader panics.
  abbrev pub after_line :
      (Str → Rd → Option (Str × Rd)) → Str → Str → Outcome IoError Str × Rd → Option (Str × Rd)
  after_line rest buf part (ok [], r) = some (buf, r)
  after_line rest buf part (ok (b ∷ line), r) =
      if ends_blank (length (b ∷ line)) (buf ++ b ∷ line)
      then some (buf ++ b ∷ line, r)
      else rest (buf ++ b ∷ line) r
  after_line rest buf part (err e, r) = some (buf ++ part, r)
  after_line rest buf part (panic, r) = none

  unfoldable pub read_head_from : ℕ → Str → Rd → Option (Str × Rd)
  read_head_from zero buf r = none
  read_head_from (suc f) buf r =
      after_line (read_head_from f) buf (until_part lf r) (read_until lf r)

  unfoldable pub read_head : ℕ → Rd → Option (Str × Rd)
  read_head fuel r = read_head_from fuel [] r
