-- ===== src/Tls/Rustls.antt =====
-- src/tls.rs: `Config` with the feature `rust-tls`.
use http_req.Prelude.{Option, none, some, List, [], ◌∷◌, ◌++◌}
use http_req.Text.{Str}
use http_req.Error.{Error, io, tls, IoError, Outcome, ok, err, panic}
use http_req.Error.From.{convert_io}
use http_req.Tls as Tls
use http_req.Tls.{rust_tls, TlsStream, Conn, TlsLayer}

-- What is used of rustls, its companions and the file system. `none` is an error of the library;
-- `certs` are the certificates of a file as `rustls_pemfile::certs` gives them.
pub record RustTls {S W : Type 0} (L : TlsStream S W) : Type 1 where
  pub Cert : Type 0
  pub Store : Type 0
  pub Session : Type 0
  -- The certificates of `webpki_roots`.
  pub server_roots : Store
  pub certs : Str → W → Outcome IoError (List (Outcome IoError Cert)) × W
  pub add_parsable_certificates : List Cert → Store → Store
  pub ServerName : Type 0
  pub server_name : Str → Option ServerName
  -- `ClientConnection::new` with a configuration of these roots.
  pub session : Store → ServerName → Option Session
  pub stream_owned : Session → S → L.T

module _ {S W : Type 0} (L : TlsStream S W) (N : RustTls L) where
  open N use {Cert, Store, Session, ServerName}

  pub record Config : Type 0 where
    pub root_certs : Store

  unfoldable pub default : Config
  default = record { root_certs = N.server_roots }

  -- The loop over the certificates: `file_certs`, or the first error.
  unfoldable pub file_certs : List Cert → List (Outcome IoError Cert) → Outcome Error (List Cert)
  file_certs acc [] = ok acc
  file_certs acc (ok item ∷ cs) = file_certs (acc ++ item ∷ []) cs
  file_certs acc (err e ∷ cs) = err (io e)
  file_certs acc (panic ∷ cs) = panic

  abbrev added : Config → Outcome Error (List Cert) → Outcome Error Unit × Config
  added c (ok cs) = (ok tt, record { root_certs = N.add_parsable_certificates cs c.root_certs })
  added c (err e) = (err e, c)
  added c panic = (panic, c)

  abbrev with_certs :
      Config → Outcome IoError (List (Outcome IoError Cert)) × W → (Outcome Error Unit × Config) × W
  with_certs c (ok cs, w) = (added c (file_certs [] cs), w)
  with_certs c (err e, w) = ((err (convert_io e), c), w)
  with_certs c (panic, w) = ((panic, c), w)

  unfoldable pub add_root_cert_file_pem : Str → Config → W → (Outcome Error Unit × Config) × W
  add_root_cert_file_pem path c w = with_certs c (N.certs path w)

  abbrev connected : S → Option Session → Outcome Error (Conn L)
  connected s none = err tls
  connected s (some x) = ok (record { stream = N.stream_owned x s })

  abbrev connect_to : Config → S → Option ServerName → Outcome Error (Conn L)
  connect_to c s none = err tls
  connect_to c s (some name) = connected s (N.session c.root_certs name)

  -- No byte is exchanged here: the handshake comes with the first read or write.
  unfoldable pub connect : Config → Str → S → W → Outcome Error (Conn L) × W
  connect c hostname s w = (connect_to c s (N.server_name hostname), w)

  abbrev pub layer : TlsLayer S (Conn L) W
  layer = record {
    Config = Config;
    default = default;
    add_root_cert_file_pem = add_root_cert_file_pem;
    connect = connect;
    get_mut = Tls.get_mut L;
    read = Tls.read L rust_tls;
    write = Tls.write L;
    flush = Tls.flush L;
  }
