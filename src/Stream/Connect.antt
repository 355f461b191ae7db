-- ===== src/Stream/Connect.antt =====
-- src/stream.rs: `connect_with_timeout`. `connect_timeout` is the socket library's, `resolve` the
-- resolver; `W` is the state of the outside.
pub mod Laws
use http_req.Prelude.{
  ℕ, suc, ◌+◌, ◌≡◌, ◌≢◌, refl, sym, ap, ◌∙◌, subst, Bool, true, false, List, [], ◌∷◌, ◌++◌,
  if◌then◌else◌, ◌==◌, length, arith, Bool-cases, inl, inr, ==_iff,
}
use http_req.Text.{Str, str}
use http_req.Error.{ErrorKind, timed_out, addr_not_available, IoError, Outcome, ok, err, panic}

abbrev pub is_timed_out : ErrorKind → Bool
is_timed_out timed_out = true
is_timed_out _ = false

-- `debug` is the text of `{:?}`.
abbrev pub not_resolved : (Str → Str) → Str → IoError
not_resolved debug host = record {
  kind = addr_not_available;
  message = str "Could not resolve address for " ++ debug host;
}

module _ {Addr Tcp W : Type 0} where
  module _ (connect_timeout : Addr → ℕ → W → Outcome IoError Tcp × W) (timeout : ℕ)
      (debug : Str → Str) (host : Str) where
    -- `match TcpStream::connect_timeout(&addr, timeout)`
    abbrev pub after_attempt :
        (W → Outcome IoError Tcp × W) → ℕ → ℕ → Outcome IoError Tcp × W → Outcome IoError Tcp × W
    after_attempt rest idx count (ok stream, w) = (ok stream, w)
    after_attempt rest idx count (err e, w) =
        if is_timed_out e.kind
        then (err e, w)
        else (if idx + 1 == count then (err e, w) else rest w)
    after_attempt rest idx count (panic, w) = (panic, w)

    unfoldable pub attempts : ℕ → ℕ → List Addr → W → Outcome IoError Tcp × W
    attempts idx count [] w = (err (not_resolved debug host), w)
    attempts idx count (a ∷ addrs) w =
        after_attempt (λ w'. attempts (suc idx) count addrs w') idx count
          (connect_timeout a timeout w)

    abbrev with_addrs : Outcome IoError (List Addr) × W → Outcome IoError Tcp × W
    with_addrs (ok addrs, w) = attempts 0 (length addrs) addrs w
    with_addrs (err e, w) = (err e, w)
    with_addrs (panic, w) = (panic, w)

    unfoldable pub connect_with_timeout :
        (Str → ℕ → W → Outcome IoError (List Addr) × W) → ℕ → W → Outcome IoError Tcp × W
    connect_with_timeout resolve port w = with_addrs (resolve host port w)
