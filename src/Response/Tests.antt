-- ===== src/Response/Tests.antt =====
-- Test vectors of src/response.rs, and the theorems about responses at concrete inputs.
use mathlib.Core.List.{Permᴰ}
use http_req.Prelude.{
  ltb, ℕ, ◌+◌, ◌≤◌, ◌<◌, ◌≡◌, ◌≢◌, refl, Bool, none, some, [], ◌∷◌, ◌++◌, if◌then◌else◌, leb, map,
  arith, length, ◌∙◌,
}
use http_req.Text.{Str, str, str_eq, starts_with, find}
use http_req.Text.Search.{lacks→Lacks, str_eq→eq, str_eq_refl}
use http_req.Text.White.Laws.{Dark, more}
use http_req.Text.Utf8.{utf8_error, utf8_error_from, followers}
use http_req.Text.Number.{decimal, decimal_fuel}
use http_req.Error.{IoError, Outcome, ok, panic}
use http_req.Response.Fields.{Headers, get, insert}
use http_req.Response.Fields.Laws.{Unicase, get-insert}
use http_req.Response.Fields.Text.{block, AreFields, inserted}
use http_req.Response.Fields.Order.{Distinct, from_str-block_permuted}
use http_req.Response.Fields as Fields
use http_req.Response.StatusLine.{Status}
use http_req.Response.StatusLine.Laws.{IsStatus}
use http_req.Response.Find.{cr_lf_2, find_slice}
use http_req.Response.Find.Laws.{shift, find_slice_lem}
use http_req.Response.Message.{from_head, try_from}
use http_req.Response.Message.Total.{from_head-ne-panic}
use http_req.Response.Message.Laws.{head_text, from_head-head_text, try_from_split, whole_response}

-- ASCII letters in lower case, and an equality of keys that meets `Unicase`.
abbrev pub to_lower : ℕ → ℕ
to_lower c = if leb b'A' c then (if leb c b'Z' then c + 32 else c) else c

abbrev pub same_key : Str → Str → Bool
same_key a b = str_eq (map to_lower a) (map to_lower b)

pub same_key-Unicase : Unicase same_key (map to_lower)
same_key-Unicase a b =
    (str_eq→eq (map to_lower a) (map to_lower b), λ e. rw e (str_eq_refl (map to_lower b)))

abbrev pub ok_status : Status
ok_status = record { version = str "HTTP/1.1"; code = record { value = 200 }; reason = str "OK" }

abbrev pub fields : Headers
fields = (str "Content-Type", str "text/html") ∷ (str "content-length", str "100") ∷ []

dark : (c : ℕ) → 33 ≤ c → c < 127 → Dark c
dark c l k = (l, k)

pub fields_are : AreFields fields
fields_are =
    let key : Str = str "Content-Type" in
    let other : Str = str "content-length" in
    (
      (b'C', str "ontent-Type", refl, (omega arith, omega arith)),
      lacks→Lacks b':' key refl,
      lacks→Lacks b'\n' key refl,
      lacks→Lacks b'\n' (str "text/html") refl,
      more b't' (str "ext/htm") b'l' (dark _ (omega arith) (omega arith))
          (dark _ (omega arith) (omega arith)) refl,
      (
        (b'c', str "ontent-length", refl, (omega arith, omega arith)),
        lacks→Lacks b':' other refl,
        lacks→Lacks b'\n' other refl,
        lacks→Lacks b'\n' (str "100") refl,
        more b'1' (str "0") b'0' (dark _ (omega arith) (omega arith))
            (dark _ (omega arith) (omega arith)) refl,
        tt,
      ),
    )

pub ok_status_is : IsStatus ok_status
ok_status_is = record {
  first = b'H';
  others = str "TTP/1.1";
  starts = refl;
  dark = (omega arith, omega arith);
  no_space = lacks→Lacks b' ' (str "HTTP/1.1") refl;
  one_line = lacks→Lacks b'\n' (str "HTTP/1.1") refl;
  fits = omega arith;
  reason_line = lacks→Lacks b'\n' (str "OK") refl;
  reason_visible =
      more b'O' [] b'K' (dark _ (omega arith) (omega arith)) (dark _ (omega arith) (omega arith))
        refl;
}

pub head_valid : utf8_error (head_text ok_status fields) ≡ none
unfolding utf8_error utf8_error_from followers decimal decimal_fuel block
head_valid = refl

from_head-head_text_example :
    from_head same_key (head_text ok_status fields)
    ≡ ok (record { status = ok_status; headers = inserted same_key [] fields })
from_head-head_text_example =
    from_head-head_text same_key ok_status fields ok_status_is fields_are (λ e. cc) head_valid

get-insert_example :
    get same_key (insert same_key fields (str "CONTENT-LENGTH") (str "7")).1 (str "Content-Length")
    ≡ (if same_key (str "CONTENT-LENGTH") (str "Content-Length")
        then some (str "7")
        else get same_key fields (str "Content-Length"))
get-insert_example =
    get-insert same_key (map to_lower) same_key-Unicase fields (str "CONTENT-LENGTH") (str "7")
      (str "Content-Length")

abbrev write_vec : Str → Str → Outcome IoError Unit × Str
write_vec d w = (ok tt, w ++ d)

abbrev front : Str
front = str "HTTP/1.1 200 OK\r\nContent-Type: text/html\r\ncontent-length: 100"

front_is : front ++ cr_lf_2 ≡ head_text ok_status fields
unfolding block decimal decimal_fuel
front_is = refl

empty_line_found : find (front ++ (cr_lf_2 ++ str "body")) cr_lf_2 ≡ some (length front)
unfolding find starts_with
empty_line_found = refl

try_from_split_example :
    try_from same_key write_vec (front ++ (cr_lf_2 ++ str "body")) []
    ≡ whole_response write_vec (from_head same_key (front ++ cr_lf_2)) (str "body") []
try_from_split_example =
    try_from_split write_vec same_key front (str "body") [] empty_line_found (λ e. cc)

-- What is written there, and the response.
written_there :
    try_from same_key write_vec (front ++ (cr_lf_2 ++ str "body")) []
    ≡ (ok (record { status = ok_status; headers = inserted same_key [] fields }), str "body")
written_there =
    try_from_split write_vec same_key front (str "body") [] empty_line_found (λ e. cc)
    ∙ rw
        (
          front_is,
          from_head-head_text same_key ok_status fields ok_status_is fields_are (λ e. cc)
              head_valid,
        )
        refl

find_slice_lem_example :
    find_slice (str "ab\r\n\r\nc") cr_lf_2
    ≡ (if ltb 4 7 then shift 4 (find (str "ab\r\n\r\nc") cr_lf_2) else none)
find_slice_lem_example = find_slice_lem (str "ab\r\n\r\nc") cr_lf_2

from_head-ne-panic_example : from_head same_key (str "HTTP/1.1 2") ≢ panic
from_head-ne-panic_example = from_head-ne-panic same_key (str "HTTP/1.1 2")

abbrev pub swapped : Headers
swapped = (str "content-length", str "100") ∷ (str "Content-Type", str "text/html") ∷ []

pub swapped_are : AreFields swapped
swapped_are =
    let (a, b, c, d, e, (a', b', c', d', e', t)) = fields_are in
    (a', b', c', d', e', (a, b, c, d, e, t))

pub fields-Distinct : Distinct same_key fields
unfolding get str_eq
fields-Distinct = (refl, (refl, tt))

from_str-block_permuted_example :
    (h : Headers) × (Fields.from_str same_key (block swapped ++ []) ≡ ok h)
    × Distinct same_key h
    × (get same_key h (str "Content-Length") ≡ get same_key fields (str "Content-Length"))
from_str-block_permuted_example =
    from_str-block_permuted same_key (map to_lower) same_key-Unicase fields swapped []
      (str "Content-Length") fields-Distinct (Permᴰ.swap refl refl) swapped_are (λ e. cc) tt
