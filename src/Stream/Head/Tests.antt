-- ===== src/Stream/Head/Tests.antt =====
-- The theorems about `read_head` at concrete streams.
use http_req.Prelude.{◌<◌, ◌≡◌, refl, length, some, [], ◌∷◌, ◌++◌, arith}
use http_req.Text.{Str, str}
use http_req.Text.Search.{lacks→Lacks}
use http_req.Text.Number.{decimal, decimal_fuel}
use http_req.Error.{ok}
use http_req.Reader.Buffered.{BufReader, bytes, buf_reader, buffered}
use http_req.Reader.Laws.{buffered_laws, buffered-Yields}
use http_req.Response.Fields.Text.{block, inserted}
use http_req.Response.Message.{from_head}
use http_req.Response.Message.Laws.{head_text}
use http_req.Response.Tests.{same_key, ok_status, ok_status_is, fields, fields_are, head_valid}
use http_req.Stream.Head.{read_head}
use http_req.Stream.Head.Laws.{HeadOf, blank, line, read_head_lem}
use http_req.Stream.Head.Message.{read_head-head_text}

-- A stream whose second line is the empty one.
abbrev text : Str
text = str "ab\n\r\nbody"

abbrev source : BufReader
source = buf_reader [] (bytes (str "ab\n\r") ∷ bytes (str "\nbody") ∷ [])

source_yields : buffered_laws.Yields source text
source_yields =
    buffered-Yields source text (record { no_fail = ((λ e. cc), ((λ e. cc), tt)); left = refl })

text-HeadOf : HeadOf (str "body") text (str "ab\n\r\n")
text-HeadOf =
    line (str "ab") (str "\r\nbody") (str "\r\n") (lacks→Lacks b'\n' (str "ab") refl) (λ e. cc)
      (blank refl refl) refl refl

read_head_lem_example :
    (r : BufReader) × (read_head buffered 10 source ≡ some (str "ab\n\r\n", r))
    × buffered_laws.Yields r (str "body")
read_head_lem_example =
    read_head_lem buffered buffered_laws 10 source text (str "ab\n\r\n") (str "body") source_yields
      text-HeadOf (omega arith)

abbrev answer : BufReader
answer = buf_reader [] (bytes (head_text ok_status fields ++ str "hi") ∷ [])

answer_yields : buffered_laws.Yields answer (head_text ok_status fields ++ str "hi")
unfolding decimal decimal_fuel block
answer_yields =
    buffered-Yields answer (head_text ok_status fields ++ str "hi")
      (record { no_fail = ((λ e. cc), tt); left = refl })

short : length (head_text ok_status fields ++ str "hi") < 200
unfolding decimal decimal_fuel block
short = omega arith

read_head-head_text_example :
    (head : Str) × (r : BufReader) × (read_head buffered 200 answer ≡ some (head, r))
    × buffered_laws.Yields r (str "hi")
    × (from_head same_key head
        ≡ ok (record { status = ok_status; headers = inserted same_key [] fields }))
read_head-head_text_example =
    read_head-head_text buffered buffered_laws same_key 200 answer ok_status fields (str "hi")
      ok_status_is fields_are (λ e. cc) head_valid answer_yields short
