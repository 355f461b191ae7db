-- ===== src/Response/Message/Laws.antt =====
-- A response's head as a server writes it, and what `from_head` and `try_from` make of it.
use http_req.Prelude.{
  ℕ, ◌+◌, ◌<◌, ◌≡◌, ◌≢◌, refl, sym, ap, ◌∙◌, none, some, [], ◌∷◌, ◌++◌, length, take, drop, arith,
  append_assoc, length-append, take-append, drop-append, pos-length, ne-nil, Bool,
}
use http_req.Text.{Str, str, find}
use http_req.Text.Number.{number, parse_uint, usize_bound}
use http_req.Response.Fields as Fields
use http_req.Text.Search.{Lacks-append}
use http_req.Text.White.{is_ascii_white}
use http_req.Text.Pieces.{splitn}
use http_req.Text.Pieces.Laws.{splitn_first, splitn_rest}
use http_req.Text.Utf8.{utf8_error}
use http_req.Error.{IoError, Error, io, Outcome, ok, err, panic}
use http_req.Response.Fields.{Headers}
use http_req.Response.Fields.Text.{block, AreFields, inserted, from_str-block}
use http_req.Response.StatusLine.{Status}
use http_req.Response.StatusLine.Laws.{
  IsStatus, status_line, status_line-Lacks, from_str-status_line,
}
use http_req.Response.Find.{cr_lf_2, find_slice}
use http_req.Response.Find.Laws.{shift, find_slice-longer}
use http_req.Response.Message.{Response, from_head, written, with_head, try_from, content_len}

-- The head of a response: status line, headers, an empty line.
abbrev pub head_text : Status → Headers → Str
head_text s h = status_line s ++ (b'\r' ∷ b'\n' ∷ (block h ++ (b'\r' ∷ b'\n' ∷ [])))

pub head_pieces :
    (s : Status) (h : Headers)
    → IsStatus s
    → splitn 2 b'\n' (head_text s h)
      ≡ (status_line s ++ b'\r' ∷ []) ∷ (block h ++ (b'\r' ∷ b'\n' ∷ [])) ∷ []
head_pieces s h k =
    ap (splitn 2 b'\n') (simp append_assoc)
    ∙ splitn_first 0 b'\n' (status_line s ++ b'\r' ∷ []) (block h ++ (b'\r' ∷ b'\n' ∷ []))
        (Lacks-append b'\n' (status_line s) (b'\r' ∷ []) (status_line-Lacks s k) (refl, tt))
    ∙ ap (λ x. (status_line s ++ b'\r' ∷ []) ∷ x)
        (splitn_rest b'\n' (block h ++ (b'\r' ∷ b'\n' ∷ [])))

-- A head of valid UTF-8 with at least one header is read as what was written: the status, and the
-- headers put into the map one after the other.
pub from_head-head_text :
    (same : Str → Str → Bool) (s : Status) (h : Headers)
    → IsStatus s
    → AreFields h
    → h ≢ []
    → utf8_error (head_text s h) ≡ none
    → from_head same (head_text s h) ≡ ok (record { status = s; headers = inserted same [] h })
unfolding from_head is_ascii_white
from_head-head_text same s h k a ne valid = rw valid (
    rw (head_pieces s h k) (
      rw (from_str-status_line s k)
        (rw (from_str-block same h (b'\r' ∷ b'\n' ∷ []) a ne (refl, (refl, tt))) refl)))

module _ {W : Type 0} (write_all : Str → W → Outcome IoError Unit × W) where
  try_from_step :
      (same : Str → Str → Bool) (res : Str) (w : W) {p : ℕ}
      → res ≢ []
      → find_slice res cr_lf_2 ≡ some p
      → try_from same write_all res w
        ≡ with_head same write_all (from_head same (take p res)) (drop p res) w
  unfolding try_from
  try_from_step same [] w ne h = absurd (ne refl)
  try_from_step same (b ∷ res) w ne h = rw h refl

  -- The outcome of writing all of the body, for the response `r`.
  abbrev pub delivered : Response → Outcome IoError Unit × W → Outcome Error Response × W
  delivered r (ok tt, w') = (ok r, w')
  delivered r (err e, w') = (err (io e), w')
  delivered r (panic, w') = (panic, w')

  -- A response has its body written; without one nothing is written.
  abbrev pub whole_response : Outcome Error Response → Str → W → Outcome Error Response × W
  whole_response (ok r) body w = delivered r (write_all body w)
  whole_response (err e) body w = (err e, w)
  whole_response panic body w = (panic, w)

  with_head-eq-whole :
      (same : Str → Str → Bool) (o : Outcome Error Response) (body : Str) (w : W)
      → with_head same write_all o body w ≡ whole_response o body w
  with_head-eq-whole same (ok r) body w = go (write_all body w)
    where
      go : (x : Outcome IoError Unit × W) → written same write_all r x ≡ delivered r x
      go (ok tt, w') = refl
      go (err e, w') = refl
      go (panic, w') = refl
  with_head-eq-whole same (err e) body w = refl
  with_head-eq-whole same panic body w = refl

  -- Bytes whose first empty line stands behind `pre`: `from_head` gets `pre` with the empty line. If it
  -- gives a response, all bytes behind that line, and nothing else, are written, and the result is the
  -- response or the writer's error; if it gives an error, that is the result, and nothing is written.
  pub try_from_split :
      (same : Str → Str → Bool) (pre body : Str) (w : W)
      → find (pre ++ (cr_lf_2 ++ body)) cr_lf_2 ≡ some (length pre)
      → pre ++ body ≢ []
      → try_from same write_all (pre ++ (cr_lf_2 ++ body)) w
        ≡ whole_response (from_head same (pre ++ cr_lf_2)) body w
  try_from_split same pre body w found ne =
      let res : Str = pre ++ (cr_lf_2 ++ body) in
      let whole : (pre ++ cr_lf_2) ++ body ≡ res = append_assoc pre cr_lf_2 body in
      let some_body : 0 < length pre + length body =
        let p = pos-length (pre ++ body) ne in omega (arith, length-append pre body) in
      let longer : 4 < length res = omega (arith, length-append pre (cr_lf_2 ++ body)) in
      let at : find_slice res cr_lf_2 ≡ some (length (pre ++ cr_lf_2)) =
        find_slice-longer res cr_lf_2 longer
        ∙ ap (shift 4) found
        ∙ ap some (omega (arith, length-append pre cr_lf_2)) in
      try_from_step same res w (ne-nil res (omega arith)) at
      ∙ ap
          (λ x.
            with_head same write_all (from_head same (take (length (pre ++ cr_lf_2)) x))
              (drop (length (pre ++ cr_lf_2)) x) w)
          (sym whole)
      ∙ ap
          (λ x.
            with_head same write_all (from_head same x)
              (drop (length (pre ++ cr_lf_2)) ((pre ++ cr_lf_2) ++ body)) w)
          (take-append (pre ++ cr_lf_2) body)
      ∙ ap (λ x. with_head same write_all (from_head same (pre ++ cr_lf_2)) x w)
          (drop-append (pre ++ cr_lf_2) body)
      ∙ with_head-eq-whole same (from_head same (pre ++ cr_lf_2)) body w

pub content_len_of :
    (same : Str → Str → Bool) (r : Response) (v : Str) (n : ℕ)
    → Fields.get same r.headers (str "Content-Length") ≡ some v
    → parse_uint usize_bound v ≡ number n
    → content_len same r ≡ some n
unfolding content_len
content_len_of same r v n h k = rw (h, content_len) (rw k refl)
