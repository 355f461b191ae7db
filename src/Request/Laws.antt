-- ===== src/Request/Laws.antt =====
-- The text of a request message, and what its setters do to its headers.
use mathlib.Core.List.{Permᴰ}
use http_req.Prelude.{
  ◌≡◌, ◌≢◌, refl, sym, ap, ◌∙◌, Bool, Option, none, some, [], ◌∷◌, ◌++◌, length, ◌<◌, append_assoc,
  append-nil, if◌then◌else◌,
}
use http_req.Text.{Str, str}
use http_req.Text.Number.{decimal, usize_bound}
use http_req.Text.Number.Laws.{parse_uint-decimal}
use http_req.Response.StatusLine.{Status}
use http_req.Response.Message.{content_len}
use http_req.Response.Message.Laws.{content_len_of}
use http_req.Text.White.{is_ascii_white}
use http_req.Error.{ok}
use http_req.Uri.Access.{resource}
use http_req.Response.Fields as Fields
use http_req.Response.Fields.{Headers}
use http_req.Response.Fields.Laws.{Unicase, get-insert, same_refl}
use http_req.Response.Fields.Text.{block, AreFields}
use http_req.Response.Fields.Order.{Distinct, from_str-block_permuted}
use http_req.Method.{as_str, version_str}
use http_req.Request.Raw.{
  RequestMessage, add_headers, add_body, request_line, parse, header, body, cr_lf,
}

add_headers_lem : (msg : Str) (h : Headers) → add_headers msg h ≡ msg ++ block h
unfolding add_headers block
add_headers_lem msg [] = sym (append-nil msg)
add_headers_lem msg ((k, v) ∷ h) =
    add_headers_lem (msg ++ (k ++ (str ": " ++ (v ++ cr_lf)))) h ∙ simp append_assoc

abbrev pub body_text : Option Str → Str
body_text none = []
body_text (some b) = b

-- The method, the resource and the version, with a space between them, and the end of the line.
abbrev pub first_line : RequestMessage → Str → Str
first_line m r =
    as_str m.method ++ (b' ' ∷ (r ++ (b' ' ∷ (version_str m.version ++ (b'\r' ∷ b'\n' ∷ [])))))

-- Each line of the message and what stands behind them.
abbrev pub message_text : RequestMessage → Str → Headers → Str
message_text m r l = first_line m r ++ ((block l ++ (b'\r' ∷ b'\n' ∷ [])) ++ body_text m.body)

-- A message whose URI gives the resource `r`, and whose map of headers, in which each key stands once,
-- is visited in any order, where the headers are proper lines and there is at least one. Its text is
-- the method, the resource and the version, with a space between them, in a line; the headers in that
-- order, each in a line; an empty line; the body. A reader of the headers' lines and the empty line
-- gets a map in which each key stands once and has the value that it has in the map of the message.
pub parse_lem :
    (same : Str → Str → Bool) (lower : Str → Str) (u : Unicase same lower)
    (iter : Headers → Headers) (m : RequestMessage) (r k : Str)
    → resource m.uri ≡ some r
    → Distinct same m.headers
    → Permᴰ m.headers (iter m.headers)
    → AreFields (iter m.headers)
    → iter m.headers ≢ []
    → (parse iter m ≡ some (message_text m r (iter m.headers)))
      × ((h : Headers) × (Fields.from_str same (block (iter m.headers) ++ (b'\r' ∷ b'\n' ∷ []))
            ≡ ok h)
          × Distinct same h
          × (Fields.get same h k ≡ Fields.get same m.headers k))
unfolding parse is_ascii_white
parse_lem same lower u iter m r k e d p a ne = (
  rw (e, parse) (ap some (with_body m.body)),
  from_str-block_permuted same lower u m.headers (iter m.headers) cr_lf k d p a ne
      (refl, (refl, tt)),
)
  where
    with_body :
        (b : Option Str)
        → add_body (add_headers (request_line m r) (iter m.headers) ++ cr_lf) b
          ≡ request_line m r ++ ((block (iter m.headers) ++ cr_lf) ++ body_text b)
    with_body none =
        ap (λ x. x ++ cr_lf) (add_headers_lem (request_line m r) (iter m.headers))
        ∙ append_assoc (request_line m r) (block (iter m.headers)) cr_lf
        ∙ ap (λ x. request_line m r ++ x) (sym (append-nil (block (iter m.headers) ++ cr_lf)))
    with_body (some b) =
        ap (λ x. (x ++ cr_lf) ++ b) (add_headers_lem (request_line m r) (iter m.headers))
        ∙ ap (λ x. x ++ b) (append_assoc (request_line m r) (block (iter m.headers)) cr_lf)
        ∙ append_assoc (request_line m r) (block (iter m.headers) ++ cr_lf) b

-- A message with a body says its length: a reader of its headers finds it, if it is a `usize`, and
-- the values of all other headers are as before.
pub body_lem :
    (same : Str → Str → Bool) (lower : Str → Str) (u : Unicase same lower) (m : RequestMessage)
    (b : Str) (s : Status) (k : Str)
    → length b < usize_bound
    → ((body same m b).body ≡ some b)
      × (content_len same (record { status = s; headers = (body same m b).headers })
          ≡ some (length b))
      × (Fields.get same (body same m b).headers k ≡ (
          if same (str "Content-Length") k
          then some (decimal (length b))
          else Fields.get same m.headers k))
unfolding body header
body_lem same lower u m b s k l =
    let set = get-insert same lower u m.headers (str "Content-Length") (decimal (length b)) in
    let found : Fields.get same
          (Fields.insert same m.headers (str "Content-Length") (decimal (length b))).1
          (str "Content-Length")
        ≡ some (decimal (length b)) =
      set (str "Content-Length")
      ∙ ap
          (λ x.
            if x
            then some (decimal (length b))
            else Fields.get same m.headers (str "Content-Length"))
          (same_refl same lower u (str "Content-Length")) in
    (
      refl,
      content_len_of same _ (decimal (length b)) (length b) found
          (parse_uint-decimal usize_bound (length b) l),
      set k,
    )
