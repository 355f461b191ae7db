-- ===== src/Error.antt =====
-- src/error.rs: the errors of parsing and of the client, and the results that carry them.
pub mod Laws
pub mod From
use http_req.Prelude.{ℕ, Option, none, some, ◌++◌}
use http_req.Text.{Str, str}
use http_req.Text.Number.{IntErrorKind}

-- `str::Utf8Error`, by its offset.
pub record Utf8Error : Type 0 where
  pub valid_up_to : ℕ

-- `io::ErrorKind`: the kinds that the program or `std::io` tells apart, and the others by number.
pub data ErrorKind : Type 0 where
  interrupted timed_out connection_aborted addr_not_available unexpected_eof other : ErrorKind
  unlisted : ℕ → ErrorKind

-- `io::Error`.
pub record IoError : Type 0 where
  pub kind : ErrorKind
  pub message : Str

pub data ParseErr : Type 0 where
  utf8 : Utf8Error → ParseErr
  int : IntErrorKind → ParseErr
  status_err headers_err uri_err invalid empty : ParseErr

pub data Error : Type 0 where
  io : IoError → Error
  parse : ParseErr → Error
  timeout tls thread : Error

-- `Display for ParseErr`.
unfoldable pub parse_err_text : ParseErr → Str
parse_err_text (utf8 e) = str "ParseErr: " ++ str "Invalid character"
parse_err_text (int e) = str "ParseErr: " ++ str "Cannot parse number"
parse_err_text invalid = str "ParseErr: " ++ str "Invalid value"
parse_err_text empty = str "ParseErr: " ++ str "Nothing to parse"
parse_err_text status_err = str "ParseErr: " ++ str "Status line contains invalid values"
parse_err_text headers_err = str "ParseErr: " ++ str "Headers contain invalid values"
parse_err_text uri_err = str "ParseErr: " ++ str "URI contains invalid characters"

-- `Display for Error`.
unfoldable pub error_text : Error → Str
unfolding parse_err_text
error_text (io e) = str "Error: " ++ str "IO error"
error_text (parse e) = parse_err_text e
error_text timeout = str "Error: " ++ str "Timeout error"
error_text tls = str "Error: " ++ str "TLS error"
error_text thread = str "Error: " ++ str "Thread communication error"

-- What `source()` gives: the error that a value wraps.
pub data Source : Type 0 where
  from_utf8_error : Utf8Error → Source
  from_int_error : IntErrorKind → Source
  from_io_error : IoError → Source
  from_parse_err : ParseErr → Source

unfoldable pub parse_err_source : ParseErr → Option Source
parse_err_source (utf8 e) = some (from_utf8_error e)
parse_err_source (int e) = some (from_int_error e)
parse_err_source _ = none

unfoldable pub error_source : Error → Option Source
error_source (io e) = some (from_io_error e)
error_source (parse e) = some (from_parse_err e)
error_source _ = none

-- The result of a Rust function that returns `Result<A, E>` and may panic.
pub data Outcome (E A : Type 0) : Type 0 where
  ok : A → Outcome E A
  err : E → Outcome E A
  panic : Outcome E A

infixl 5 ◌>>=◌
abbrev pub ◌>>=◌ : {E A B : Type 0} → Outcome E A → (A → Outcome E B) → Outcome E B
ok a >>= f = f a
err e >>= f = err e
panic >>= f = panic

-- `?` with the conversion `From`.
abbrev pub map_err : {E F A : Type 0} → (E → F) → Outcome E A → Outcome F A
map_err g (ok a) = ok a
map_err g (err e) = err (g e)
map_err g panic = panic

abbrev pub ok_or : {E A : Type 0} → Option A → E → Outcome E A
ok_or none e = err e
ok_or (some a) e = ok a

-- Indexing and `unwrap`, which panic on `None`.
abbrev pub unwrap : {E A : Type 0} → Option A → Outcome E A
unwrap none = panic
unwrap (some a) = ok a
