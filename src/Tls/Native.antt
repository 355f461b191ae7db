-- ===== src/Tls/Native.antt =====
-- src/tls.rs: `Config` with the feature `native-tls`.
use http_req.Prelude.{Option, none, some, List, [], ◌∷◌, ◌++◌, if◌then◌else◌}
use http_req.Text.{Str, str, contains}
use http_req.Error.{Error, IoError, Outcome, ok, err, panic}
use http_req.Error.From.{convert_io, convert_tls}
use http_req.Tls as Tls
use http_req.Tls.{native_tls, TlsStream, Conn, TlsLayer}

-- What is used of native_tls and the file system. `none` is an error of the library; `lines` are the
-- lines of a file as `BufRead::lines` gives them.
pub record NativeTls {S W : Type 0} (L : TlsStream S W) : Type 1 where
  pub Cert : Type 0
  pub Connector : Type 0
  pub lines : Str → W → Outcome IoError (List (Outcome IoError Str)) × W
  pub from_pem : Str → Option Cert
  -- `builder()`, `add_root_certificate` for each certificate, `build()`.
  pub build : List Cert → Option Connector
  pub handshake : Connector → Str → S → W → Option L.T × W

module _ {S W : Type 0} (L : TlsStream S W) (N : NativeTls L) where
  open N use {Cert}

  pub record Config : Type 0 where
    pub extra_root_certs : List Cert

  unfoldable pub default : Config
  default = record { extra_root_certs = [] }

  -- How a line ends a certificate; the rest is done with what has been read of the next one.
  abbrev pub add_cert :
      (Config → Outcome Error Unit × Config) → Config → Option Cert → Outcome Error Unit × Config
  add_cert rest c none = (err (convert_tls tt), c)
  add_cert rest c (some crt) = rest (record { extra_root_certs = c.extra_root_certs ++ crt ∷ [] })

  -- The loop over the lines, with `pem_crt`.
  unfoldable pub add_lines : List (Outcome IoError Str) → Str → Config → Outcome Error Unit × Config
  add_lines [] pem c = (ok tt, c)
  add_lines (ok line ∷ ls) pem c =
      let pem' = pem ++ (line ++ b'\n' ∷ []) in
      let next = add_lines ls pem' c in
      if contains line (str "-----END")
      then add_cert (add_lines ls []) c (N.from_pem pem')
      else next
  add_lines (err e ∷ ls) pem c = (err (convert_io e), c)
  add_lines (panic ∷ ls) pem c = (panic, c)

  abbrev with_lines :
      Config → Outcome IoError (List (Outcome IoError Str)) × W → (Outcome Error Unit × Config) × W
  with_lines c (ok ls, w) = (add_lines ls [] c, w)
  with_lines c (err e, w) = ((err (convert_io e), c), w)
  with_lines c (panic, w) = ((panic, c), w)

  -- The certificates that were read before an error stay.
  unfoldable pub add_root_cert_file_pem : Str → Config → W → (Outcome Error Unit × Config) × W
  add_root_cert_file_pem path c w = with_lines c (N.lines path w)

  abbrev connected : Option L.T × W → Outcome Error (Conn L) × W
  connected (none, w) = (err (convert_tls tt), w)
  connected (some t, w) = (ok (record { stream = t }), w)

  abbrev connect_by : Option N.Connector → Str → S → W → Outcome Error (Conn L) × W
  connect_by none hostname s w = (err (convert_tls tt), w)
  connect_by (some k) hostname s w = connected (N.handshake k hostname s w)

  unfoldable pub connect : Config → Str → S → W → Outcome Error (Conn L) × W
  connect c hostname s w = connect_by (N.build c.extra_root_certs) hostname s w

  abbrev pub layer : TlsLayer S (Conn L) W
  layer = record {
    Config = Config;
    default = default;
    add_root_cert_file_pem = add_root_cert_file_pem;
    connect = connect;
    get_mut = Tls.get_mut L;
    read = Tls.read L native_tls;
    write = Tls.write L;
    flush = Tls.flush L;
  }
