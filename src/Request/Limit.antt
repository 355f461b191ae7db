-- ===== src/Request/Limit.antt =====
-- How many requests `send` makes.
use http_req.Prelude.{
  ℕ, zero, suc, ◌<◌, ◌≡◌, refl, sym, ap, subst, Bool, Option, none, some, if◌then◌else◌, arith,
  Bool-cases, inl, inr,
}
use http_req.Text.{Str, str}
use http_req.Error.{Error, Outcome, ok, err, panic}
use http_req.Uri.{Uri}
use http_req.Response.Fields.{Headers}
use http_req.Response.Fields as Fields
use http_req.Response.Code.{is_redirect}
use http_req.Response.Message.{Response, status_code}
use http_req.Uri.Access.{is_relative}
use http_req.Uri.Relative.{from_relative}
use http_req.Uri.Parse as Parse
use http_req.Request.Client as Client
use http_req.Stream.Open.{Stream, Net}
use http_req.Request.Redirect.{limit, follow, follow_none, follow_some}
use http_req.Request.Client.{Request, from_secs, set_redirect_policy}
use http_req.Request.Send.{
  Next, stays, goes, fails, breaks, next_request, with_policy, to_uri, to_location, at_location,
  exchange, instead, send, Sent, go_on, with_exchange,
}

-- A request behind a redirect has one redirect less to follow.
abbrev Fewer : ℕ → Next → Type 0
Fewer n stays = Unit
Fewer n (goes p r) = (m : ℕ) × (r.redirect_policy ≡ limit m) × (m < n)
Fewer n (fails p e) = Unit
Fewer n (breaks p) = Unit

module _ (same : Str → Str → Bool) where
  with_policy-Fewer :
      (m n : ℕ) → m < n → (o : Option Request) → Fewer n (with_policy same (limit m) o)
  unfolding set_redirect_policy
  with_policy-Fewer m n l none = tt
  with_policy-Fewer m n l (some r) = (m, refl, l)

  to_uri-Fewer : (m n : ℕ) → m < n → (o : Outcome Error Uri) → Fewer n (to_uri same (limit m) o)
  to_uri-Fewer m n l (ok u) = with_policy-Fewer m n l (Client.new same u)
  to_uri-Fewer m n l (err e) = tt
  to_uri-Fewer m n l panic = tt

  to_location-Fewer :
      (r : Request) (location : Str) (n : ℕ)
      → Fewer n (to_location same r location (follow (limit n) location))
  to_location-Fewer r location zero = rw (follow_none location) tt
  to_location-Fewer r location (suc n) = rw (follow_some n location) (
      to_uri-Fewer n (suc n) (omega arith) (
        if is_relative location
        then from_relative r.message.uri location
        else Parse.try_from location))

  at_location-Fewer :
      (r : Request) (n : ℕ)
      → r.redirect_policy ≡ limit n
      → (o : Option Str) → Fewer n (at_location same r o)
  at_location-Fewer r n e none = tt
  at_location-Fewer r n e (some location) =
      subst (λ p. Fewer n (to_location same r location (follow p location))) (sym e)
        (to_location-Fewer r location n)

  next_request-Fewer :
      (r : Request) (response : Response) (n : ℕ)
      → r.redirect_policy ≡ limit n
      → Fewer n (next_request same r response)
  unfolding next_request
  next_request-Fewer r response n e = elim (Bool-cases (is_redirect (status_code response))) [
    | inl t ↦ rw t (at_location-Fewer r n e (Fields.get same response.headers (str "Location")))
    | inr f ↦ rw f tt
  ]

  module _ (N : Net) (iter : Headers → Headers) where
    abbrev Result : Sent same N iter → Type 0
    Result s = (x : Outcome Error Response × Request × N.W) × (s ≡ some x)

    abbrev SendAt : ℕ → Type 0
    SendAt f =
        (n : ℕ) (r : Request) (w : N.W)
        → r.redirect_policy ≡ limit n
        → n < f
        → Result (send same N iter f r w)

    go_on-Result :
        (f : ℕ)
        → SendAt f
        → (n : ℕ) (r : Request) (stream : Stream N.Tcp N.Tls) (response : Response) (w : N.W)
        → n < suc f
        → (x : Next) → Fewer n x
        → Result (go_on same N iter (λ r' w'. send same N iter f r' w') r stream response w x)
    go_on-Result f ih n r stream response w l stays h = (_, refl)
    go_on-Result f ih n r stream response w l (goes p r') (m, e, k) =
        let ((o, r'', w'), q) = ih m r' w e (omega arith) in
        ((o, set_redirect_policy r p, w'), ap (instead same N iter (set_redirect_policy r p)) q)
    go_on-Result f ih n r stream response w l (fails p e) h = (_, refl)
    go_on-Result f ih n r stream response w l (breaks p) h = (_, refl)

    with_exchange-Result :
        (f : ℕ)
        → SendAt f
        → (n : ℕ) (r : Request) → r.redirect_policy ≡ limit n
        → n < suc f
        → (o : Outcome Error (Stream N.Tcp N.Tls × Response) × N.W)
        → Result (with_exchange same N iter (λ r' w'. send same N iter f r' w') r o)
    with_exchange-Result f ih n r e l (ok (stream, response), w) =
        go_on-Result f ih n r stream response w l (next_request same r response)
          (next_request-Fewer r response n e)
    with_exchange-Result f ih n r e l (err x, w) = (_, refl)
    with_exchange-Result f ih n r e l (panic, w) = (_, refl)

    sends : (f : ℕ) → SendAt f
    unfolding send
    sends zero n r w e l = absurd (omega arith)
    sends (suc f) n r w e l = with_exchange-Result f (sends f) n r e l (exchange same N iter r w)

-- A request with a limit of `n` redirects is over, whatever the servers answer, after at most `n + 1`
-- requests: the one that is sent and one for each redirect.
pub send-limit :
    (same : Str → Str → Bool) (N : Net) (iter : Headers → Headers) (n fuel : ℕ) (r : Request)
    (w : N.W)
    → r.redirect_policy ≡ limit n
    → n < fuel
    → (x : Outcome Error Response × Request × N.W) × (send same N iter fuel r w ≡ some x)
send-limit same N iter n fuel r w e l = sends same N iter fuel n r w e l
