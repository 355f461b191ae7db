-- ===== src/Stream/Send.antt =====
-- src/stream.rs: `ThreadSend::send_all`.
pub mod Laws
use http_req.Prelude.{
  ℕ, zero, suc, ◌+◌, ◌*◌, ◌≤◌, ◌<◌, ◌≡◌, ◌≢◌, refl, sym, ap, ◌∙◌, Bool, true, false, Option, none,
  some, List, [], ◌∷◌, ◌++◌, length, arith, append_assoc, append-nil, length-append, ne-nil,
  if◌then◌else◌,
}
use http_req.Text.{Str}
use http_req.Error.{IoError, Outcome, ok, err, panic}
use http_req.Reader.{Reader, ReaderLaws}

abbrev pub buf_size : ℕ
buf_size = 16 * 1000

-- `send` is `Sender::send`: `false` is that the receiver is gone. `none` is that the fuel was not enough.
module _ (R : Reader) {S : Type 0} (send : Str → S → Bool × S) where
  abbrev pub after_send : (S → Option (R.Rd × S)) → R.Rd → Bool × S → Option (R.Rd × S)
  after_send rest r (true, s) = rest s
  after_send rest r (false, s) = some (r, s)

  abbrev pub after_read :
      (R.Rd → S → Option (R.Rd × S)) → S → Outcome IoError Str × R.Rd → Option (R.Rd × S)
  after_read rest s (ok [], r) = some (r, s)
  after_read rest s (ok (b ∷ d), r) = after_send (rest r) r (send (b ∷ d) s)
  after_read rest s (err e, r) = some (r, s)
  after_read rest s (panic, r) = some (r, s)

  unfoldable pub send_all : ℕ → R.Rd → S → Option (R.Rd × S)
  send_all zero r s = none
  send_all (suc f) r s = after_read (λ r' s'. send_all f r' s') s (R.read buf_size r)
