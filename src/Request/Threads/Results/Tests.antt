-- ===== src/Request/Threads/Results/Tests.antt =====
-- The two threads at a response whose body breaks off with a fault of the stream.
use http_req.Prelude.{◌≡◌, refl, Bool, true, false, none, some, List, [], ◌∷◌}
use http_req.Text.{Str, str, str_eq, find, contains, starts_with, is_char_boundary, get_range}
use http_req.Text.Number.{parse_digits, parse_uint}
use http_req.Error.{other, IoError, ok}
use http_req.Reader.Buffered.{
  BufReader, bytes, fails, buf_reader, buffered, source_read, fill_buf_in, fill_buf, consume,
  read_in, read, read_until_from, read_until, until_part_from, until_part,
}
use http_req.Response.Fields.{Headers}
use http_req.Response.Message.{
  Response, from_head, basic_info, content_len, is_chunked, status_code,
}
use http_req.Response.Tests.{same_key, ok_status}
use http_req.Request.Tests.{request}
use http_req.Request.Threads.{ended, returned, State, spawned, body_read, body_of}
use http_req.Request.Threads.Steps.{worker_step, caller_step}
use http_req.Request.Threads.Results.{Results}
use http_req.Request.Threads.Results.Laws.{runs-Results}
use http_req.Stream.Head.{read_head, read_head_from, ends_blank}
use http_req.Response.Code.{is_redirect}
use http_req.Request.Send.{next_request}
use http_req.Text.Pieces.{splitn, strip_cr, lines_from, lines}
use http_req.Text.White.{
  is_ascii_white, white_front, white_back, trim_with, trim_start, trim_end, trim,
}
use http_req.Text.Utf8.{followers, utf8_error_from, utf8_error}
use http_req.Response.Find.{scan, find_slice}
use http_req.Response.Fields as Fields
use http_req.Response.Code as Code
use http_req.Response.StatusLine as StatusLine
use http_req.Request.Threads.Played.{play, played}

abbrev fault : IoError
fault = record { kind = other; message = [] }

abbrev headers : Headers
headers = (str "Content-Length", str "6") ∷ []

abbrev source : BufReader
source = buf_reader [] (
    bytes (str "HTTP/1.1 200 OK\r\nContent-Length: 6\r\n\r\n")
    ∷ bytes (str "foo")
    ∷ fails fault
    ∷ [])

abbrev States : Type 0
States = State buffered Str

abbrev before : States
before = spawned buffered Str source []

abbrev response : Response
response = record { status = ok_status; headers = headers }

abbrev after : States
after = record {
  worker = ended;
  caller = returned (ok response);
  queue = [];
  params = none;
  writer = str "foo";
}

abbrev schedule : List Bool
schedule = false ∷ false ∷ true ∷ true ∷ true ∷ false ∷ true ∷ []

breaks_off : play buffered same_key request 1000 schedule before ≡ some after
unfolding worker_step caller_step spawned body_read body_of read_head read_head_from ends_blank
    from_head basic_info content_len is_chunked status_code is_redirect next_request source_read
    fill_buf_in fill_buf consume read_in read read_until_from read_until until_part_from until_part
    str_eq starts_with find contains is_char_boundary get_range parse_digits parse_uint splitn
    strip_cr lines_from lines is_ascii_white white_front white_back trim_with trim_start trim_end
    trim followers utf8_error_from utf8_error scan find_slice Fields.new Fields.split_field
    Fields.parse_field Fields.all_fields Fields.get Fields.insert Fields.collect_into
    Fields.from_str Code.new Code.from_str StatusLine.new StatusLine.from_str
breaks_off = refl

runs-Results_example : Results buffered 1000 same_key request source false (ok response) (str "foo")
runs-Results_example =
    runs-Results buffered 1000 same_key request source false 7 after (ok response)
      (played buffered same_key request 1000 schedule before after breaks_off) refl
