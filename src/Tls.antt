-- ===== src/Tls.antt =====
-- src/tls.rs: `Conn` and `Config`, over the TLS library that a build feature chooses. The library, the
-- file system and the sockets are parameters; `W` is the state of the outside.
pub mod Native
pub mod Rustls
pub mod Laws
mod Tests
use http_req.Prelude.{ℕ, Bool, true, false, Option, none, some, List, [], ◌∷◌, if◌then◌else◌}
use http_req.Text.{Str}
use http_req.Error.{ErrorKind, connection_aborted, IoError, Error, Outcome, ok, err, panic}

-- The features `native-tls` and `rust-tls`, of which one is enabled.
pub data Feature : Type 0 where
  native_tls rust_tls : Feature

-- A stream of the library: `native_tls::TlsStream<S>` or `rustls::StreamOwned<ClientConnection, S>`.
pub record TlsStream (S W : Type 0) : Type 1 where
  pub T : Type 0
  pub socket : T → S
  pub read : ℕ → T → W → Outcome IoError Str × W
  pub write : Str → T → W → Outcome IoError ℕ × W
  pub flush : T → W → Outcome IoError Unit × W

module _ {S W : Type 0} (L : TlsStream S W) where
  pub record Conn : Type 0 where
    pub stream : L.T

  unfoldable pub get_ref : Conn → S
  get_ref c = L.socket c.stream

  unfoldable pub get_mut : Conn → S
  get_mut c = L.socket c.stream

  abbrev pub is_aborted : ErrorKind → Bool
  is_aborted connection_aborted = true
  is_aborted _ = false

  -- `if io::ErrorKind::ConnectionAborted == e.kind() { return Ok(0) }`
  abbrev pub ended_by : Outcome IoError Str × W → Outcome IoError Str × W
  ended_by (ok d, w) = (ok d, w)
  ended_by (err e, w) = (if is_aborted e.kind then ok [] else err e, w)
  ended_by (panic, w) = (panic, w)

  unfoldable pub read : Feature → ℕ → Conn → W → Outcome IoError Str × W
  read native_tls k c w = L.read k c.stream w
  read rust_tls k c w = ended_by (L.read k c.stream w)

  unfoldable pub write : Str → Conn → W → Outcome IoError ℕ × W
  write d c w = L.write d c.stream w

  unfoldable pub flush : Conn → W → Outcome IoError Unit × W
  flush c w = L.flush c.stream w

-- What the streams use: `Config` and `Conn` over a socket; each of the features fills it.
pub record TlsLayer (Tcp Tls W : Type 0) : Type 1 where
  pub Config : Type 0
  pub default : Config
  pub add_root_cert_file_pem : Str → Config → W → (Outcome Error Unit × Config) × W
  pub connect : Config → Str → Tcp → W → Outcome Error Tls × W
  pub get_mut : Tls → Tcp
  pub read : ℕ → Tls → W → Outcome IoError Str × W
  pub write : Str → Tls → W → Outcome IoError ℕ × W
  pub flush : Tls → W → Outcome IoError Unit × W
