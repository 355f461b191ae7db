-- ===== src/Method.antt =====
-- src/request.rs: the methods and the versions of HTTP.
use http_req.Prelude.{Bool, true, false}
use http_req.Text.{Str, str}

pub data Method : Type 0 where
  get head post put delete connect options trace patch : Method

unfoldable pub as_str : Method → Str
as_str get = str "GET"
as_str head = str "HEAD"
as_str post = str "POST"
as_str put = str "PUT"
as_str delete = str "DELETE"
as_str connect = str "CONNECT"
as_str options = str "OPTIONS"
as_str trace = str "TRACE"
as_str patch = str "PATCH"

-- `method != &Method::HEAD`
abbrev pub is_head : Method → Bool
is_head head = true
is_head _ = false

pub data HttpVersion : Type 0 where
  http10 http11 http20 : HttpVersion

unfoldable pub version_str : HttpVersion → Str
version_str http10 = str "HTTP/1.0"
version_str http11 = str "HTTP/1.1"
version_str http20 = str "HTTP/2.0"
