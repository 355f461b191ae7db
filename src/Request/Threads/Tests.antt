-- ===== src/Request/Threads/Tests.antt =====
-- The theorems about the two threads at a concrete exchange: a chunked response.
use http_req.Prelude.{
  ℕ, ◌+◌, ◌*◌, ◌≤◌, ◌<◌, ◌≡◌, refl, ◌⊎◌, false, none, [], ◌∷◌, ◌++◌, length, arith, Bool, true,
  some, List,
}
use http_req.Text.{Str, str, str_eq, find, contains, starts_with, is_char_boundary, get_range}
use http_req.Text.Search.{lacks→Lacks}
use http_req.Text.Number.{decimal, decimal_fuel, parse_digits, parse_uint}
use http_req.Text.White.Laws.{Dark, more}
use http_req.Text.Utf8.{utf8_error, utf8_error_from, followers}
use http_req.Error.{Error, Outcome, ok}
use http_req.Reader.Buffered.{
  BufReader, bytes, buf_reader, buffered, source_read, fill_buf_in, fill_buf, consume, read_in,
  read, read_until_from, read_until, until_part_from, until_part, read_exact_from, read_exact,
}
use http_req.Reader.Laws.{buffered_laws, buffered-Yields}
use http_req.Chunked.Stream.{Encoded, last, chunk}
use http_req.Chunked.Tests.{announced_3, announced_0}
use http_req.Response.Fields as Fields
use http_req.Response.Fields.{Headers}
use http_req.Response.Fields.Text.{block, AreFields}
use http_req.Response.Code.{is_redirect}
use http_req.Response.Message.{
  Response, content_len, is_chunked, basic_info, status_code, from_head,
}
use http_req.Response.Message.Laws.{head_text, from_head-head_text}
use http_req.Response.Tests.{same_key, ok_status, ok_status_is}
use http_req.Stream.Receive.Laws.{write_vec}
use http_req.Stream.Send.{buf_size}
use http_req.Stream.Head.Message.{head_text-HeadOf}
use http_req.Request.Send.{next_request}
use http_req.Request.Tests.{request}
use http_req.Request.Threads.{
  ended, returned, State, spawned, body_read, body_of, waits, wants_head,
}
use http_req.Request.Threads.Steps.{Step, Runs, worker_step, caller_step}
use http_req.Request.Threads.Invariant.{Answer, in_chunks}
use http_req.Request.Threads.Written.{IsFinal, written, send-written}
use http_req.Request.Threads.Laws.{Got, runs-Got, runs_le, runs-IsOver, runs_complete}
use http_req.Stream.Head.{read_head, read_head_from, ends_blank}
use http_req.Text.Pieces.{splitn, strip_cr, lines_from, lines}
use http_req.Text.White.{
  is_ascii_white, white_front, white_back, trim_with, trim_start, trim_end, trim,
}
use http_req.Response.Find.{scan, find_slice}
use http_req.Request.Threads.Played.{play, played}
use http_req.Response.Code as Code
use http_req.Response.StatusLine as StatusLine
use http_req.Chunked.{from_reader, begin_chunk, read_body, round, read_loop, chunk_header_avaliable}
use http_req.Chunked.Line.{
  is_ascii_space, hex_value, parse_hex_from, parse_hex_uint, remove_chunk_extension, trim_from,
  trim_trailing_whitespace, read_chunk_line,
}
use http_req.Chunked as Chunked

abbrev headers : Headers
headers = (str "Transfer-Encoding", str "chunked") ∷ []

dark : (c : ℕ) → 33 ≤ c → c < 127 → Dark c
dark c l k = (l, k)

headers_are : AreFields headers
headers_are = (
  (b'T', str "ransfer-Encoding", refl, dark _ (omega arith) (omega arith)),
  lacks→Lacks b':' (str "Transfer-Encoding") refl,
  lacks→Lacks b'\n' (str "Transfer-Encoding") refl,
  lacks→Lacks b'\n' (str "chunked") refl,
  more b'c' (str "hunke") b'd' (dark _ (omega arith) (omega arith))
      (dark _ (omega arith) (omega arith)) refl,
  tt,
)

abbrev wire : Str
wire = str "3\r\nfoo\r\n0\r\n"

abbrev response : Response
response = record { status = ok_status; headers = headers }

valid : utf8_error (head_text ok_status headers) ≡ none
unfolding utf8_error utf8_error_from followers decimal decimal_fuel block
valid = refl

wire-Encoded : Encoded buf_size (str "foo" ∷ []) wire
wire-Encoded =
    chunk (str "3\r") (str "0\r\n") announced_3 (λ e. cc) (omega arith)
      (last (str "0\r") [] announced_0 refl) refl

answer : Answer same_key request response (str "foo")
unfolding next_request is_redirect basic_info content_len is_chunked Fields.get Fields.insert
    contains find starts_with str_eq status_code
answer = record {
  stream = head_text ok_status headers ++ wire;
  head = head_text ok_status headers;
  wire = wire;
  starts = head_text-HeadOf ok_status headers wire ok_status_is headers_are;
  parsed = from_head-head_text same_key ok_status headers ok_status_is headers_are (λ e. cc) valid;
  final = refl;
  carries = in_chunks (str "foo" ∷ []) refl refl wire-Encoded refl;
}

abbrev source : BufReader
source = buf_reader [] (bytes (head_text ok_status headers ++ wire) ∷ [])

source_yields : buffered_laws.Yields source answer.stream
unfolding answer decimal decimal_fuel block
source_yields =
    buffered-Yields source (head_text ok_status headers ++ wire)
      (record { no_fail = ((λ e. cc), tt); left = refl })

enough : length answer.stream + (2 * length (str "foo") + 1) < 1000
unfolding answer decimal decimal_fuel block
enough = omega arith

abbrev States : Type 0
States = State buffered Str

abbrev before : States
before = spawned buffered Str source []

-- The state behind the first step, in which the head is in the channel.
abbrev waiting : States
waiting = record {
  worker = waits (buf_reader wire []);
  caller = wants_head;
  queue = head_text ok_status headers ∷ [];
  params = none;
  writer = [];
}

-- The state behind the last one.
abbrev after : States
after = record {
  worker = ended;
  caller = returned (ok response);
  queue = [];
  params = none;
  writer = str "foo";
}

abbrev first_step : List Bool
first_step = true ∷ []

abbrev schedule : List Bool
schedule = false ∷ false ∷ true ∷ true ∷ true ∷ false ∷ true ∷ []

head_comes : play buffered same_key request 1000 first_step before ≡ some waiting
unfolding worker_step caller_step spawned body_read body_of read_head read_head_from ends_blank
    from_head basic_info content_len is_chunked status_code is_redirect next_request source_read
    fill_buf_in fill_buf consume read_in read read_until_from read_until until_part_from until_part
    str_eq starts_with find contains is_char_boundary get_range parse_digits parse_uint splitn
    strip_cr lines_from lines is_ascii_white white_front white_back trim_with trim_start trim_end
    trim followers utf8_error_from utf8_error scan find_slice Fields.new Fields.split_field
    Fields.parse_field Fields.all_fields Fields.get Fields.insert Fields.collect_into
    Fields.from_str Code.new Code.from_str StatusLine.new StatusLine.from_str decimal decimal_fuel
    block
head_comes = refl

response_comes : play buffered same_key request 1000 schedule before ≡ some after
unfolding worker_step caller_step spawned body_read body_of read_head read_head_from ends_blank
    from_head basic_info content_len is_chunked status_code is_redirect next_request source_read
    fill_buf_in fill_buf consume read_in read read_until_from read_until until_part_from until_part
    str_eq starts_with find contains is_char_boundary get_range parse_digits parse_uint splitn
    strip_cr lines_from lines is_ascii_white white_front white_back trim_with trim_start trim_end
    trim followers utf8_error_from utf8_error scan find_slice Fields.new Fields.split_field
    Fields.parse_field Fields.all_fields Fields.get Fields.insert Fields.collect_into
    Fields.from_str Code.new Code.from_str StatusLine.new StatusLine.from_str decimal decimal_fuel
    block from_reader begin_chunk read_body round read_loop chunk_header_avaliable Chunked.read
    is_ascii_space hex_value parse_hex_from parse_hex_uint remove_chunk_extension trim_from
    trim_trailing_whitespace read_chunk_line read_exact_from read_exact
response_comes = refl

abbrev Played : List Bool → States → Type 0
Played bs t = Runs buffered write_vec same_key request 1000 before false (length bs) t

one_step : Played first_step waiting
one_step = played buffered same_key request 1000 first_step before waiting head_comes

all_steps : Played schedule after
all_steps = played buffered same_key request 1000 schedule before after response_comes

runs-Got_example :
    ((rest : Str) × (str "foo" ≡ after.writer ++ rest))
    × Got false response (str "foo") after.caller after.writer
runs-Got_example =
    runs-Got buffered buffered_laws same_key request response (str "foo") answer 1000 source false 7
      after enough source_yields all_steps

runs_le_example : 7 ≤ 2 * length (str "foo") + 6
runs_le_example =
    runs_le buffered buffered_laws same_key request response (str "foo") answer 1000 source false 7
      after enough source_yields all_steps

runs-IsOver_example :
    ((waiting.worker ≡ ended) × ((o : Outcome Error Response) × (waiting.caller ≡ returned o)))
    ⊎ ((u : States) × Step buffered write_vec same_key request 1000 waiting u)
runs-IsOver_example =
    runs-IsOver buffered buffered_laws same_key request response (str "foo") answer 1000 source
      false 1 waiting enough source_yields one_step

runs_complete_example :
    (k : ℕ) × (u : States) × Runs buffered write_vec same_key request 1000 waiting false k u
    × (u.worker ≡ ended)
    × (u.caller ≡ returned (ok response))
    × (u.writer ≡ str "foo")
runs_complete_example =
    runs_complete buffered buffered_laws same_key request response (str "foo") answer 1000 source 1
      waiting enough source_yields one_step

final : IsFinal same_key request ok_status headers wire (str "foo")
unfolding next_request is_redirect basic_info content_len is_chunked Fields.get Fields.insert
    contains find starts_with str_eq status_code utf8_error utf8_error_from followers decimal
    decimal_fuel block
final = record {
  is_status = ok_status_is;
  are_fields = headers_are;
  some_field = λ e. cc;
  valid = refl;
  no_redirect = refl;
  body = in_chunks (str "foo" ∷ []) refl refl wire-Encoded refl;
}

send-written_example :
    ((k : ℕ) × (u : States) × Runs buffered write_vec same_key request 1000 before false k u
      × (u.worker ≡ ended)
      × (u.caller ≡ returned (ok (written same_key ok_status headers)))
      × (u.writer ≡ str "foo"))
    × Got false (written same_key ok_status headers) (str "foo") after.caller after.writer
unfolding answer
send-written_example =
    send-written buffered buffered_laws same_key request ok_status headers wire (str "foo") 1000
      source false 7 after final enough source_yields all_steps
