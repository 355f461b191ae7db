-- ===== src/Request/Client.antt =====
-- src/request.rs: `Request` and its builder methods.
use http_req.Prelude.{ℕ, ◌*◌, ◌^◌, Bool, Option, none, some}
use http_req.Text.{Str, str}
use http_req.Method.{Method, HttpVersion}
use http_req.Uri.{Uri}
use http_req.Response.Fields.{Headers}
use http_req.Request.Auth.{Authentication}
use http_req.Request.Redirect as Redirect
use http_req.Request.Redirect.{RedirectPolicy}
use http_req.Request.Raw as Raw
use http_req.Request.Raw.{RequestMessage}

-- `Duration`, in nanoseconds.
abbrev pub Duration : Type 0
Duration = ℕ

abbrev pub from_secs : ℕ → Duration
from_secs n = n * 10 ^ 9

pub record Request : Type 0 where
  pub message : RequestMessage
  pub redirect_policy : RedirectPolicy
  pub connect_timeout : Option Duration
  pub read_timeout : Option Duration
  pub write_timeout : Option Duration
  pub timeout : Duration
  pub root_cert_file_pem : Option Str

unfoldable pub set_method : Request → Method → Request
set_method r method = record r { message = Raw.set_method r.message method }

unfoldable pub set_version : Request → HttpVersion → Request
set_version r version = record r { message = Raw.set_version r.message version }

unfoldable pub set_headers : Request → Headers → Request
set_headers r headers = record r { message = Raw.set_headers r.message headers }

unfoldable pub set_connect_timeout : Request → Option Duration → Request
set_connect_timeout r t = record r { connect_timeout = t }

unfoldable pub set_read_timeout : Request → Option Duration → Request
set_read_timeout r t = record r { read_timeout = t }

unfoldable pub set_write_timeout : Request → Option Duration → Request
set_write_timeout r t = record r { write_timeout = t }

unfoldable pub set_timeout : Request → Duration → Request
set_timeout r t = record r { timeout = t }

unfoldable pub set_root_cert_file_pem : Request → Str → Request
set_root_cert_file_pem r file_path = record r { root_cert_file_pem = some file_path }

unfoldable pub set_redirect_policy : Request → RedirectPolicy → Request
set_redirect_policy r policy = record r { redirect_policy = policy }

module _ (same : Str → Str → Bool) where
  abbrev pub with_message : RequestMessage → Request
  with_message m = record {
    message = Raw.header same m (str "Connection") (str "Close");
    redirect_policy = Redirect.default;
    connect_timeout = some (from_secs 60);
    read_timeout = some (from_secs 60);
    write_timeout = some (from_secs 60);
    timeout = from_secs (60 * 60);
    root_cert_file_pem = none;
  }

  -- `none` is a panic of `host_header`.
  unfoldable pub new : Uri → Option Request
  new u = elim (Raw.new same u) [ none ↦ none | some m ↦ some (with_message m) ]

  unfoldable pub header : Request → Str → Str → Request
  header r key val = record r { message = Raw.header same r.message key val }

  unfoldable pub authentication : (Str → Str) → Request → Authentication → Request
  authentication encode r auth = record r {
    message = Raw.authentication same encode r.message auth;
  }

  unfoldable pub body : Request → Str → Request
  body r b = record r { message = Raw.body same r.message b }
