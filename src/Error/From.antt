-- ===== src/Error/From.antt =====
-- src/error.rs: the conversions by which `?` turns the errors of other crates into those of the
-- library. What a TLS library or a channel says is dropped.
use http_req.Text.Number.{IntErrorKind}
use http_req.Error.{Utf8Error, IoError, ParseErr, utf8, int, Error, io, parse, timeout, tls, thread}

abbrev pub convert_int : IntErrorKind → ParseErr
convert_int e = int e

abbrev pub convert_io : IoError → Error
convert_io e = io e

abbrev pub convert_parse : ParseErr → Error
convert_parse e = parse e

abbrev pub convert_utf8 : Utf8Error → Error
convert_utf8 e = parse (utf8 e)

abbrev pub convert_recv_timeout : {E : Type 0} → E → Error
convert_recv_timeout e = timeout

abbrev pub convert_tls : {E : Type 0} → E → Error
convert_tls e = tls

abbrev pub convert_send : {E : Type 0} → E → Error
convert_send e = thread
