-- ===== src/Request/Tests.antt =====
-- The theorems about requests at concrete inputs.
use http_req.Prelude.{
  if◌then◌else◌, ℕ, suc, ◌-◌, ◌≡◌, refl, true, false, none, some, List, [], ◌∷◌, ◌++◌, map,
  replicate, min, arith,
}
use http_req.Text.{Str, str, get_range, is_char_boundary}
use http_req.Text.Number.{decimal}
use http_req.Error.{Error, Outcome, ok}
use http_req.Method.{as_str, version_str, post, http11}
use http_req.Uri.{Uri, range_c}
use http_req.Uri.Access.{resource, resource_in}
use http_req.Response.Fields as Fields
use http_req.Response.Fields.{Headers}
use http_req.Response.Fields.Text.{block}
use http_req.Response.Message.{Response, content_len}
use http_req.Response.Tests.{
  to_lower, same_key, same_key-Unicase, ok_status, fields, fields-Distinct, swapped_are,
}
use http_req.Stream.Open.{Net}
use http_req.Request.Redirect.{limit, custom, answers, answers_lem}
use http_req.Request.Raw.{add_headers, RequestMessage, body, parse}
use http_req.Request.Client.{Request}
use http_req.Request.Laws.{parse_lem, body_lem, message_text}
use http_req.Response.Fields.Order.{Distinct}
use mathlib.Core.List.{Permᴰ}
use http_req.Request.Send.{send}
use http_req.Request.Limit.{send-limit}

abbrev uri_inner : Str
uri_inner = str "http://a.b/c?d"

abbrev uri : Uri
uri = record {
  inner = uri_inner;
  scheme = range_c 0 4;
  authority = none;
  path = some (range_c 10 12);
  query = some (range_c 13 14);
  fragment = none;
}

abbrev message : RequestMessage
message = record {
  uri = uri;
  method = post;
  version = http11;
  headers = fields;
  body = some (str "hello");
}

uri_resource : resource uri ≡ some (str "/c?d")
unfolding resource resource_in get_range is_char_boundary
uri_resource = refl

-- An order in which the map may be visited.
abbrev reversed : Headers → Headers
reversed (a ∷ b ∷ []) = b ∷ a ∷ []
reversed h = h

parse_lem_example :
    (parse reversed message ≡ some (message_text message (str "/c?d") (reversed fields)))
    × ((h : Headers) × (Fields.from_str same_key (block (reversed fields) ++ (b'\r' ∷ b'\n' ∷ []))
          ≡ ok h)
        × Distinct same_key h
        × (Fields.get same_key h (str "CONTENT-TYPE")
            ≡ Fields.get same_key fields (str "CONTENT-TYPE")))
parse_lem_example =
    parse_lem same_key (map to_lower) same_key-Unicase reversed message (str "/c?d")
      (str "CONTENT-TYPE") uri_resource fields-Distinct (Permᴰ.swap refl refl) swapped_are (λ e. cc)

request_text :
    parse reversed message
    ≡ some (str "POST /c?d HTTP/1.1\r\ncontent-length: 100\r\nContent-Type: text/html\r\n\r\nhello")
unfolding parse add_headers as_str version_str resource resource_in get_range is_char_boundary
request_text = refl

body_lem_example :
    ((body same_key message (str "hi")).body ≡ some (str "hi"))
    × (content_len same_key
          (record { status = ok_status; headers = (body same_key message (str "hi")).headers })
        ≡ some 2)
    × (Fields.get same_key (body same_key message (str "hi")).headers (str "Accept") ≡ (
        if same_key (str "Content-Length") (str "Accept")
        then some (decimal 2)
        else Fields.get same_key fields (str "Accept")))
body_lem_example =
    body_lem same_key (map to_lower) same_key-Unicase message (str "hi") ok_status (str "Accept")
      (omega arith)

abbrev locations : List Str
locations = str "/a" ∷ str "/b" ∷ str "/c" ∷ []

answers_lem_example :
    (answers (limit 2) locations ≡ replicate (min 2 3) true ++ replicate (3 - 2) false)
    × (answers (custom (λ s. false)) locations ≡ map (λ s. false) locations)
answers_lem_example = answers_lem locations 2 (λ s. false)

abbrev redirected : Response
redirected = record {
  status = record { version = str "HTTP/1.1"; code = record { value = 301 }; reason = str "Moved" };
  headers = (str "Location", str "/there") ∷ [];
}

abbrev pub request : Request
request = record {
  message = message;
  redirect_policy = limit 2;
  connect_timeout = none;
  read_timeout = none;
  write_timeout = none;
  timeout = 1;
  root_cert_file_pem = some (str "cert.pem");
}

-- Servers that send every client on to the same place; the state counts the requests.
abbrev loop_net : Net
loop_net = record {
  Addr = Unit;
  Tcp = Unit;
  Tls = Unit;
  W = ℕ;
  debug = λ s. s;
  resolve = λ h p w. (ok (tt ∷ []), w);
  connect_timeout = λ a t w. (ok tt, w);
  connect_host = λ h p w. (ok tt, w);
  layer = record {
    Config = Unit;
    default = tt;
    add_root_cert_file_pem = λ p c w. ((ok tt, c), w);
    connect = λ c h t w. (ok tt, w);
    get_mut = λ t. t;
    read = λ k t w. (ok [], w);
    write = λ d t w. (ok 0, w);
    flush = λ t w. (ok tt, w);
  };
  set_read_timeout = λ s t w. (ok tt, w);
  set_write_timeout = λ s t w. (ok tt, w);
  read = λ k t w. (ok [], w);
  write = λ d t w. (ok 0, w);
  flush = λ t w. (ok tt, w);
  write_all = λ s d w. (ok tt, suc w);
  receive_head = λ s t w. (ok (str "HTTP/1.1 301 Moved\r\nLocation: http://a.b/c\r\n\r\n"), w);
  send_params = λ s p w. (ok tt, w);
  receive_body = λ s t w. (ok tt, w);
}

send-limit_example :
    (x : Outcome Error Response × Request × ℕ) × (send same_key loop_net (λ h. h) 3 request 0
      ≡ some x)
send-limit_example = send-limit same_key loop_net (λ h. h) 2 3 request 0 refl (omega arith)
