-- ===== src/Stream/Receive.antt =====
-- src/stream.rs: `ThreadReceive`, over a channel of `std::sync::mpsc`: the messages with the instants
-- at which they arrive, and the instant at which the sender is gone.
pub mod Laws
use http_req.Prelude.{
  ℕ, zero, suc, ◌+◌, ◌-◌, ◌≤◌, ◌<◌, ◌≡◌, refl, sym, ap, ◌∙◌, Bool, true, false, ◌&&◌, Option, none,
  some, List, [], ◌∷◌, ◌++◌, if◌then◌else◌, leb, ltb, length, arith, append_assoc, append-nil,
  Bool-cases, inl, inr, le→ltb-false,
}
use http_req.Text.{Str}
use http_req.Error.{IoError, Error, io, timeout, Outcome, ok, err, panic}
use http_req.Error.From.{convert_io, convert_recv_timeout}
use http_req.Stream.Deadline.{execute_with_deadline, after_call}

pub record Channel : Type 0 where
  pub now : ℕ
  pub queue : List (ℕ × Str)
  pub closed : ℕ

pub data Received : Type 0 where
  message : Str → Received
  timed_out disconnected : Received

abbrev pub later : ℕ → ℕ → ℕ
later a b = if ltb a b then b else a

abbrev pub recv_from : ℕ → ℕ → ℕ → List (ℕ × Str) → Received × Channel
recv_from limit now closed [] =
    if leb closed limit
    then (disconnected, record { now = later now closed; queue = []; closed = closed })
    else (timed_out, record { now = limit; queue = []; closed = closed })
recv_from limit now closed ((t, d) ∷ q) =
    if leb t limit
    then (message d, record { now = later now t; queue = q; closed = closed })
    else (timed_out, record { now = limit; queue = (t, d) ∷ q; closed = closed })

-- `receiver.recv_timeout(remaining)`
unfoldable pub recv_timeout : ℕ → Channel → Received × Channel
recv_timeout remaining c = recv_from (c.now + remaining) c.now c.closed c.queue

module _ {W : Type 0} (write_all : Str → W → Outcome IoError Unit × W) where
  abbrev written : Channel → Outcome IoError Unit × W → Outcome Error Bool × (Channel × W)
  written c (ok tt, w) = (ok false, (c, w))
  written c (err e, w) = (err (convert_io e), (c, w))
  written c (panic, w) = (panic, (c, w))

  -- The closure of `receive_all`.
  abbrev pub take_received : W → Received × Channel → Outcome Error Bool × (Channel × W)
  take_received w (message d, c) = written c (write_all d w)
  take_received w (timed_out, c) = (err timeout, (c, w))
  take_received w (disconnected, c) = (ok true, (c, w))

  unfoldable pub receive_one : ℕ → Channel × W → Outcome Error Bool × (Channel × W)
  receive_one remaining (c, w) = take_received w (recv_timeout remaining c)

  abbrev pub clock_of : Channel × W → ℕ
  clock_of (c, w) = c.now

  unfoldable pub receive_all : ℕ → ℕ → Channel × W → Option (Outcome Error Unit × (Channel × W))
  receive_all fuel deadline s = execute_with_deadline clock_of receive_one deadline fuel s

  abbrev done : Channel → Outcome IoError Unit × W → Outcome Error Unit × (Channel × W)
  done c (ok tt, w) = (ok tt, (c, w))
  done c (err e, w) = (err (convert_io e), (c, w))
  done c (panic, w) = (panic, (c, w))

  -- `From<RecvTimeoutError> for Error`: both kinds are `Timeout`.
  abbrev take_first : W → Received × Channel → Outcome Error Unit × (Channel × W)
  take_first w (message d, c) = done c (write_all d w)
  take_first w (timed_out, c) = (err (convert_recv_timeout timed_out), (c, w))
  take_first w (disconnected, c) = (err (convert_recv_timeout disconnected), (c, w))

  unfoldable pub receive : ℕ → Channel × W → Outcome Error Unit × (Channel × W)
  receive deadline (c, w) = take_first w (recv_timeout (deadline - c.now) c)
