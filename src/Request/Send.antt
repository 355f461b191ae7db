-- ===== src/Request/Send.antt =====
-- src/request.rs: `Request::send`, with the redirects it follows, and `get`. The fuel
-- bounds the requests that are made; `none` is that it was not enough.
use http_req.Prelude.{ℕ, zero, suc, Bool, true, false, Option, none, some, if◌then◌else◌, ltb}
use http_req.Text.{Str, str}
use http_req.Error.{Error, Outcome, ok, err, panic}
use http_req.Method
use http_req.Uri.{Uri}
use http_req.Uri.Access.{is_relative, unwrap_or}
use http_req.Uri.Parse as Parse
use http_req.Uri.Relative.{from_relative}
use http_req.Response.Fields as Fields
use http_req.Response.Fields.{Headers}
use http_req.Response.Code.{is_redirect}
use http_req.Response.Message.{Response, from_head, status_code, basic_info, content_len}
use http_req.Stream.Open.{
  Stream, Net, ◌>=>◌, of_io, lift, connect, try_to_https, set_read_timeout, set_write_timeout,
}
use http_req.Request.Redirect.{RedirectPolicy, follow}
use http_req.Request.Raw as Raw
use http_req.Request.Client as Client
use http_req.Request.Client.{Request, set_redirect_policy}

-- What a response's head leads to: its body, or another request, or an end. The policy is what
-- `follow` left of it.
pub data Next : Type 0 where
  stays : Next
  goes : RedirectPolicy → Request → Next
  fails : RedirectPolicy → Error → Next
  breaks : RedirectPolicy → Next

module _ (same : Str → Str → Bool) where
  abbrev pub with_policy : RedirectPolicy → Option Request → Next
  with_policy p none = breaks p
  with_policy p (some r) = goes p (set_redirect_policy r p)

  abbrev pub to_uri : RedirectPolicy → Outcome Error Uri → Next
  to_uri p (ok u) = with_policy p (Client.new same u)
  to_uri p (err e) = fails p e
  to_uri p panic = breaks p

  abbrev pub to_location : Request → Str → Bool × RedirectPolicy → Next
  to_location r location (false, p) = stays
  to_location r location (true, p) = to_uri p (
      if is_relative location
      then from_relative r.message.uri location
      else Parse.try_from location)

  abbrev pub at_location : Request → Option Str → Next
  at_location r none = stays
  at_location r (some location) = to_location r location (follow r.redirect_policy location)

  unfoldable pub next_request : Request → Response → Next
  next_request r response =
      if is_redirect (status_code response)
      then at_location r (Fields.get same response.headers (str "Location"))
      else stays

  module _ (N : Net) (iter : Headers → Headers) where
    open N use {Tcp, Tls, W}

    -- From `Stream::connect` to the head of the response.
    unfoldable pub exchange : Request → W → Outcome Error (Stream Tcp Tls × Response) × W
    exchange r w = connect N r.message.uri r.connect_timeout w >=> λ s w1.
        set_read_timeout N s r.read_timeout w1 >=> λ u w2.
        set_write_timeout N s r.write_timeout w2 >=> λ u' w3.
        try_to_https N s r.message.uri r.root_cert_file_pem w3 >=> λ stream w4.
        lift (Raw.parse iter r.message) w4 >=> λ msg w5.
        of_io (N.write_all stream msg w5) >=> λ u'' w6.
        N.receive_head stream r.timeout w6 >=> λ head w7.
        (from_head same head, w7) >=> λ response w8. (ok (stream, response), w8)

    -- The body of the response, if there may be one.
    unfoldable pub receive_response :
        Request → Stream Tcp Tls → Response → W → Outcome Error Response × W
    receive_response r stream response w =
        N.send_params stream (basic_info same response r.message.method) w >=> λ u w1.
        (if ltb 0 (unwrap_or (content_len same response) 1)
          then N.receive_body stream r.timeout w1
          else (ok tt, w1))
        >=> λ u' w2. (ok response, w2)

    -- The result, the request as it is left, and the state.
    abbrev pub Sent : Type 0
    Sent = Option (Outcome Error Response × Request × W)

    abbrev left : Request → Outcome Error Response × W → Sent
    left r (o, w) = some (o, r, w)

    abbrev pub instead : Request → Sent → Sent
    instead r none = none
    instead r (some (o, r', w)) = some (o, r, w)

    abbrev pub go_on : (Request → W → Sent) → Request → Stream Tcp Tls → Response → W → Next → Sent
    go_on rest r stream response w stays = left r (receive_response r stream response w)
    go_on rest r stream response w (goes p r') = instead (set_redirect_policy r p) (rest r' w)
    go_on rest r stream response w (fails p e) = some (err e, set_redirect_policy r p, w)
    go_on rest r stream response w (breaks p) = some (panic, set_redirect_policy r p, w)

    abbrev pub with_exchange :
        (Request → W → Sent) → Request → Outcome Error (Stream Tcp Tls × Response) × W → Sent
    with_exchange rest r (ok (stream, response), w) =
        go_on rest r stream response w (next_request r response)
    with_exchange rest r (err e, w) = some (err e, r, w)
    with_exchange rest r (panic, w) = some (panic, r, w)

    unfoldable pub send : ℕ → Request → W → Sent
    send zero r w = none
    send (suc f) r w = with_exchange (λ r' w'. send f r' w') r (exchange r w)

    abbrev started :
        ℕ → (Request → Request) → Outcome Error Uri → W → Option (Outcome Error Response × W)
    started fuel set (ok u) w = run (Client.new same u)
      where
        run : Option Request → Option (Outcome Error Response × W)
        run none = some (panic, w)
        run (some r) = elim (send fuel (set r) w) [ none ↦ none | some (o, r', w') ↦ some (o, w') ]
    started fuel set (err e) w = some (err e, w)
    started fuel set panic w = some (panic, w)

    unfoldable pub get : ℕ → Str → W → Option (Outcome Error Response × W)
    get fuel uri w = started fuel (λ r. r) (Parse.try_from uri) w

    -- The body goes to a writer of its own, which is part of the state.
    unfoldable pub head : ℕ → Str → W → Option (Outcome Error Response × W)
    head fuel uri w = started fuel (λ r. Client.set_method r Method.head) (Parse.try_from uri) w

    unfoldable pub post : ℕ → Str → Str → W → Option (Outcome Error Response × W)
    post fuel uri body w =
        started fuel (λ r. Client.body same (Client.set_method r Method.post) body)
          (Parse.try_from uri) w
