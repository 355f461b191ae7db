-- ===== src/Response/Code.antt =====
-- src/response.rs: `StatusCode`.
pub mod Laws
use http_req.Prelude.{
  ℕ, Bool, true, false, ◌&&◌, Option, none, some, List, [], ◌∷◌, if◌then◌else◌, ◌==◌, leb, ltb,
}
use http_req.Text.{Str, str}
use http_req.Text.Number.{Parsed, number, not_number, parse_uint, u16_bound, decimal}
use http_req.Error.{ParseErr, int, Outcome, ok, err}
use http_req.Error.From.{convert_int}

-- A `u16`.
pub record StatusCode : Type 0 where
  pub value : ℕ

unfoldable pub new : ℕ → StatusCode
new code = record { value = code }

unfoldable pub is_info : StatusCode → Bool
is_info c = leb 100 c.value && ltb c.value 200

unfoldable pub is_success : StatusCode → Bool
is_success c = leb 200 c.value && ltb c.value 300

unfoldable pub is_redirect : StatusCode → Bool
is_redirect c = leb 300 c.value && ltb c.value 400

unfoldable pub is_client_err : StatusCode → Bool
is_client_err c = leb 400 c.value && ltb c.value 500

unfoldable pub is_server_err : StatusCode → Bool
is_server_err c = leb 500 c.value && ltb c.value 600

unfoldable pub is : StatusCode → (ℕ → Bool) → Bool
is c f = f c.value

-- The arms of the `match` in `reason`.
abbrev pub reasons : List (ℕ × Str)
reasons =
    (100, str "Continue")
    ∷ (101, str "Switching Protocols")
    ∷ (102, str "Processing")
    ∷ (200, str "OK")
    ∷ (201, str "Created")
    ∷ (202, str "Accepted")
    ∷ (203, str "Non Authoritative Information")
    ∷ (204, str "No Content")
    ∷ (205, str "Reset Content")
    ∷ (206, str "Partial Content")
    ∷ (207, str "Multi-Status")
    ∷ (208, str "Already Reported")
    ∷ (226, str "IM Used")
    ∷ (300, str "Multiple Choices")
    ∷ (301, str "Moved Permanently")
    ∷ (302, str "Found")
    ∷ (303, str "See Other")
    ∷ (304, str "Not Modified")
    ∷ (305, str "Use Proxy")
    ∷ (307, str "Temporary Redirect")
    ∷ (308, str "Permanent Redirect")
    ∷ (400, str "Bad Request")
    ∷ (401, str "Unauthorized")
    ∷ (402, str "Payment Required")
    ∷ (403, str "Forbidden")
    ∷ (404, str "Not Found")
    ∷ (405, str "Method Not Allowed")
    ∷ (406, str "Not Acceptable")
    ∷ (407, str "Proxy Authentication Required")
    ∷ (408, str "Request Timeout")
    ∷ (409, str "Conflict")
    ∷ (410, str "Gone")
    ∷ (411, str "Length Required")
    ∷ (412, str "Precondition Failed")
    ∷ (413, str "Payload Too Large")
    ∷ (414, str "URI Too Long")
    ∷ (415, str "Unsupported Media Type")
    ∷ (416, str "Range Not Satisfiable")
    ∷ (417, str "Expectation Failed")
    ∷ (418, str "I'm a teapot")
    ∷ (421, str "Misdirected Request")
    ∷ (422, str "Unprocessable Entity")
    ∷ (423, str "Locked")
    ∷ (424, str "Failed Dependency")
    ∷ (426, str "Upgrade Required")
    ∷ (428, str "Precondition Required")
    ∷ (429, str "Too Many Requests")
    ∷ (431, str "Request Header Fields Too Large")
    ∷ (451, str "Unavailable For Legal Reasons")
    ∷ (500, str "Internal Server Error")
    ∷ (501, str "Not Implemented")
    ∷ (502, str "Bad Gateway")
    ∷ (503, str "Service Unavailable")
    ∷ (504, str "Gateway Timeout")
    ∷ (505, str "HTTP Version Not Supported")
    ∷ (506, str "Variant Also Negotiates")
    ∷ (507, str "Insufficient Storage")
    ∷ (508, str "Loop Detected")
    ∷ (510, str "Not Extended")
    ∷ (511, str "Network Authentication Required")
    ∷ []

unfoldable pub reason_in : List (ℕ × Str) → ℕ → Str
reason_in [] n = []
reason_in ((code, text) ∷ arms) n = let rest = reason_in arms n in if n == code then text else rest

abbrev pub non_empty : Str → Option Str
non_empty [] = none
non_empty (c ∷ s) = some (c ∷ s)

unfoldable pub reason : StatusCode → Option Str
reason c = non_empty (reason_in reasons c.value)

unfoldable pub display : StatusCode → Str
display c = decimal c.value

abbrev pub parsed_code : Parsed → Outcome ParseErr StatusCode
parsed_code (number n) = ok (new n)
parsed_code (not_number e) = err (convert_int e)

unfoldable pub from_str : Str → Outcome ParseErr StatusCode
from_str s = parsed_code (parse_uint u16_bound s)
