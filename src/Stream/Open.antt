-- ===== src/Stream/Open.antt =====
-- src/stream.rs: `Stream`, how it is opened and set up. The sockets, the resolver and TLS (src/tls.rs,
-- a layer over the TLS libraries) are fields of `Net`; `W` is the state of the outside.
use http_req.Prelude.{ℕ, Option, none, some, List, if◌then◌else◌}
use http_req.Text.{Str, str, str_eq}
use http_req.Error.{uri_err, Error, parse, IoError, Outcome, ok, err, panic}
use http_req.Error.From.{convert_io}
use http_req.Uri.{Uri}
use http_req.Uri.Access.{host, corr_port, scheme}
use http_req.Tls.{TlsLayer}
use http_req.Stream.Connect.{connect_with_timeout}

pub data Stream (Tcp Tls : Type 0) : Type 0 where
  http : Tcp → Stream Tcp Tls
  https : Tls → Stream Tcp Tls

pub record Net : Type 1 where
  pub Addr : Type 0
  pub Tcp : Type 0
  pub Tls : Type 0
  pub W : Type 0
  pub debug : Str → Str
  pub resolve : Str → ℕ → W → Outcome IoError (List Addr) × W
  pub connect_timeout : Addr → ℕ → W → Outcome IoError Tcp × W
  -- `TcpStream::connect((host, port))`
  pub connect_host : Str → ℕ → W → Outcome IoError Tcp × W
  pub layer : TlsLayer Tcp Tls W
  pub set_read_timeout : Tcp → Option ℕ → W → Outcome IoError Unit × W
  pub set_write_timeout : Tcp → Option ℕ → W → Outcome IoError Unit × W
  pub read : ℕ → Tcp → W → Outcome IoError Str × W
  pub write : Str → Tcp → W → Outcome IoError ℕ × W
  pub flush : Tcp → W → Outcome IoError Unit × W
  -- The loop of `Write::write_all` over the stream's `write`.
  pub write_all : Stream Tcp Tls → Str → W → Outcome IoError Unit × W
  -- The thread that reads, seen from its channels: the head within a time; the parameters for the
  -- body; the body within the same time, which goes to the writer.
  pub receive_head : Stream Tcp Tls → ℕ → W → Outcome Error Str × W
  pub send_params : Stream Tcp Tls → Str × Str → W → Outcome Error Unit × W
  pub receive_body : Stream Tcp Tls → ℕ → W → Outcome Error Unit × W

-- What is done with a result, and the state behind it; `?` goes on with `ok`.
infixl 5 ◌>=>◌
abbrev pub ◌>=>◌ :
    {A B W : Type 0} → Outcome Error A × W → (A → W → Outcome Error B × W) → Outcome Error B × W
(ok a, w) >=> f = f a w
(err e, w) >=> f = (err e, w)
(panic, w) >=> f = (panic, w)

abbrev pub of_io : {A W : Type 0} → Outcome IoError A × W → Outcome Error A × W
of_io (ok a, w) = (ok a, w)
of_io (err e, w) = (err (convert_io e), w)
of_io (panic, w) = (panic, w)

-- A pure result in front of the rest; `none` is a panic.
abbrev pub lift : {A W : Type 0} → Option A → W → Outcome Error A × W
lift none w = (panic, w)
lift (some a) w = (ok a, w)

module _ (N : Net) where
  open N use {Tcp, Tls, W}

  abbrev socket : Tcp → W → Outcome Error (Stream Tcp Tls) × W
  socket tcp w = (ok (http tcp), w)

  abbrev connect_to : Str → ℕ → Option ℕ → W → Outcome Error (Stream Tcp Tls) × W
  connect_to h port (some timeout) w =
      of_io (connect_with_timeout N.connect_timeout timeout N.debug h N.resolve port w) >=> socket
  connect_to h port none w = of_io (N.connect_host h port w) >=> socket

  abbrev with_host : Uri → Option ℕ → W → Option Str → Outcome Error (Stream Tcp Tls) × W
  with_host u timeout w none = (err (parse uri_err), w)
  with_host u timeout w (some h) = lift (corr_port u) w >=> λ port w'. connect_to h port timeout w'

  unfoldable pub connect : Uri → Option ℕ → W → Outcome Error (Stream Tcp Tls) × W
  connect u timeout w = lift (host u) w >=> λ h w'. with_host u timeout w' h

  open N.layer use {Config, default, add_root_cert_file_pem}

  abbrev configured : (Outcome Error Unit × Config) × W → Outcome Error Config × W
  configured ((ok tt, c), w) = (ok c, w)
  configured ((err e, c), w) = (err e, w)
  configured ((panic, c), w) = (panic, w)

  -- `match root_cert_file_pem`
  abbrev with_cert : Option Str → W → Outcome Error Config × W
  with_cert none w = (ok default, w)
  with_cert (some path) w = configured (add_root_cert_file_pem path default w)

  abbrev secure : Tcp → Option Str → W → Option Str → Outcome Error (Stream Tcp Tls) × W
  secure tcp cert w none = (err (parse uri_err), w)
  secure tcp cert w (some h) =
      with_cert cert w >=> λ cnf w1. N.layer.connect cnf h tcp w1 >=> λ tls w2. (ok (https tls), w2)

  unfoldable pub try_to_https :
      Stream Tcp Tls → Uri → Option Str → W → Outcome Error (Stream Tcp Tls) × W
  try_to_https (http tcp) u cert w = lift (scheme u) w >=> λ s w'.
      if str_eq s (str "https")
      then (lift (host u) w' >=> λ h w''. secure tcp cert w'' h)
      else (ok (http tcp), w')
  try_to_https (https tls) u cert w = (ok (https tls), w)

  -- The time-outs of the socket, `Read` and `Write`.
  unfoldable pub set_read_timeout : Stream Tcp Tls → Option ℕ → W → Outcome Error Unit × W
  set_read_timeout (http s) dur w = of_io (N.set_read_timeout s dur w)
  set_read_timeout (https conn) dur w = of_io (N.set_read_timeout (N.layer.get_mut conn) dur w)

  unfoldable pub set_write_timeout : Stream Tcp Tls → Option ℕ → W → Outcome Error Unit × W
  set_write_timeout (http s) dur w = of_io (N.set_write_timeout s dur w)
  set_write_timeout (https conn) dur w = of_io (N.set_write_timeout (N.layer.get_mut conn) dur w)

  unfoldable pub read : ℕ → Stream Tcp Tls → W → Outcome IoError Str × W
  read k (http s) w = N.read k s w
  read k (https conn) w = N.layer.read k conn w

  unfoldable pub write : Str → Stream Tcp Tls → W → Outcome IoError ℕ × W
  write d (http s) w = N.write d s w
  write d (https conn) w = N.layer.write d conn w

  unfoldable pub flush : Stream Tcp Tls → W → Outcome IoError Unit × W
  flush (http s) w = N.flush s w
  flush (https conn) w = N.layer.flush conn w
