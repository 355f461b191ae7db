-- ===== src/Request/Follows.antt =====
-- The request that `send` makes behind a redirect.
use http_req.Prelude.{◌≡◌, Bool, true, false, Option, none, some, if◌then◌else◌, ◌⊎◌, []}
use http_req.Text.{Str, str}
use http_req.Error.{Error, Outcome, ok, err}
use http_req.Uri.{Uri}
use http_req.Response.Fields.{Headers}
use http_req.Response.Fields as Fields
use http_req.Response.Code.{is_redirect}
use http_req.Response.Message.{Response}
use http_req.Uri.Access.{is_relative, host_header, unwrap_or}
use http_req.Uri.Relative.{from_relative}
use http_req.Uri.Parse as Parse
use http_req.Method.{get, http11}
use http_req.Request.Client as Client
use http_req.Request.Raw as Raw
use http_req.Request.Redirect.{RedirectPolicy, follow}
use http_req.Request.Client.{Request, from_secs}
use http_req.Request.Send.{Next, stays, goes, fails, breaks}

module _ (same : Str → Str → Bool) where
  abbrev set : Headers → Str → Str → Headers
  set h k v = (Fields.insert same h k v).1

  -- What is set in an empty map, in this order.
  abbrev pub fresh_headers : Str → Headers
  fresh_headers host =
      set (set (set [] (str "Host") host) (str "User-Agent") (str "http_req/0.13.0"))
        (str "Connection") (str "Close")

  -- A request to `u`, in which only the policy is not the default. Times are in nanoseconds.
  abbrev pub fresh_request : Uri → Str → RedirectPolicy → Request
  fresh_request u host p = record {
    message = record {
      uri = u;
      method = get;
      version = http11;
      headers = fresh_headers host;
      body = none;
    };
    redirect_policy = p;
    connect_timeout = some 60000000000;
    read_timeout = some 60000000000;
    write_timeout = some 60000000000;
    timeout = 3600000000000;
    root_cert_file_pem = none;
  }

  -- Where a location leads from a request.
  abbrev pub target : Request → Str → Outcome Error Uri
  target r location =
      if is_relative location then from_relative r.message.uri location else Parse.try_from location

  module _ (r : Request) (response : Response) where
    -- The response names a place that the policy follows, which leaves `p`.
    abbrev pub Names : Str → RedirectPolicy → Type 0
    Names location p =
        (is_redirect response.status.code ≡ true)
        × (Fields.get same response.headers (str "Location") ≡ some location)
        × (follow r.redirect_policy location ≡ (true, p))

    abbrev pub Forgets : Next → Type 0
    Forgets stays =
        (is_redirect response.status.code ≡ false)
        ⊎ (Fields.get same response.headers (str "Location") ≡ none)
        ⊎ ((location : Str) × (p : RedirectPolicy) × (Fields.get same response.headers
                (str "Location")
              ≡ some location)
            × (follow r.redirect_policy location ≡ (false, p)))
    Forgets (goes p r') =
        (location : Str) × (u : Uri) × (host : Option Str) × Names location p
        × (target r location ≡ ok u)
        × (host_header u ≡ some host)
        × (r' ≡ fresh_request u (unwrap_or host []) p)
    Forgets (fails p e) = (location : Str) × Names location p × (target r location ≡ err e)
    Forgets (breaks p) = (location : Str) × Names location p
