-- ===== src/Request/Auth.antt =====
-- src/request.rs: `Authentication`. `encode` is `URL_SAFE.encode` of the base64 crate.
use http_req.Prelude.{◌++◌}
use http_req.Text.{Str, str}

-- `AuthenticationType`, and `Authentication` around it.
pub data Authentication : Type 0 where
  basic : Str → Str → Authentication
  bearer : Str → Authentication

unfoldable pub scheme : Authentication → Str
scheme (basic username password) = str "Basic"
scheme (bearer token) = str "Bearer"

module _ (encode : Str → Str) where
  unfoldable pub credentials : Authentication → Str
  credentials (basic username password) = encode (username ++ (str ":" ++ password))
  credentials (bearer token) = token

  unfoldable pub header : Authentication → Str × Str
  header a = (str "Authorization", scheme a ++ (str " " ++ credentials a))
