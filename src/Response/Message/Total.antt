-- ===== src/Response/Message/Total.antt =====
-- `Response::from_head` and `Response::try_from` on any bytes: they do not panic.
use http_req.Prelude.{
  ℕ, ◌-◌, ◌≤◌, ◌≡◌, ◌≢◌, refl, sym, ap, ◌∙◌, Bool, true, false, Option, none, some, List, [], ◌∷◌,
  length, take, drop, take-all, length-drop, le→leb, is_some, arith, Bool-cases, Option-cases, inl,
  inr, &&-eq-true,
}
use http_req.Text.{Str, str, find, contains, is_char_boundary, get_range}
use http_req.Text.Search.{find-starts_with, length-starts_with}
use http_req.Text.Ranges.{boundary_end}
use http_req.Text.Slices.{IsText, IsText-drop, boundary_of_drop, starts_char_of_match}
use http_req.Text.Number.{Parsed, number, not_number}
use http_req.Text.Pieces.{splitn, lines}
use http_req.Text.Pieces.Texts.{AreTexts, trim-IsText, lines-AreTexts, splitn-AreTexts}
use http_req.Text.Utf8.{utf8_error, utf8_error-IsText}
use http_req.Text.White.{trim}
use http_req.Error.{
  ParseErr, status_err, headers_err, parse, Outcome, ok, err, panic, map_err, ok_or,
}
use http_req.Error.Laws.{Ensures, Ensures-bind, Ensures-map_err, Ensures-ne-panic}
use http_req.Response.Fields as Fields
use http_req.Response.Fields.{Headers, insert, split_field, parse_field, all_fields, collect_into}
use http_req.Response.Code as Code
use http_req.Response.StatusLine as StatusLine
use http_req.Response.StatusLine.{Status, next}
use http_req.Response.Message.{from_head}

abbrev Returns : {E A : Type 0} → Outcome E A → Type 0
Returns m = Ensures (λ a. Unit) m

get_range-some :
    (s : Str) (a b : ℕ)
    → a ≤ b
    → is_char_boundary s a ≡ true
    → is_char_boundary s b ≡ true
    → get_range s a b ≡ some (take (b - a) (drop a s))
unfolding get_range
get_range-some s a b l h k = rw (le→leb a b l, h, k) refl

-- The text is cut in front of the colon and behind it.
split_field-Returns :
    (elem : Str) (i : ℕ) → IsText elem → find elem (str ":") ≡ some i → Returns (split_field elem i)
unfolding split_field is_char_boundary
split_field-Returns elem i t h =
    let (m, l) = find-starts_with elem (str ":") h in
    let value : Str = drop i elem in
    let at_colon : is_char_boundary elem i ≡ true = boundary_of_drop elem i l (
      starts_char_of_match value (str ":") 0 (IsText-drop i elem t) (omega arith, tt) m
        (omega arith) (omega arith)) in
    let behind_colon : is_char_boundary value 1 ≡ true =
      boundary_of_drop value 1 (length-starts_with value (str ":") m) (
        starts_char_of_match value (str ":") 1 (IsText-drop i elem t) (omega arith, tt) m
          (omega arith) (omega arith)) in
    let whole : get_range elem i (length elem) ≡ some value =
      get_range-some elem i (length elem) l at_colon (boundary_end elem)
      ∙ ap some (take-all value (length elem - i) (omega (arith, length-drop i elem))) in
    rw (get_range-some elem 0 i (omega arith) refl at_colon) (
      rw whole (
        rw
          (get_range-some value 1 (length value) (length-starts_with value (str ":") m) behind_colon
            (boundary_end value))
          tt))

parse_field-Returns :
    (elem : Str) → IsText elem → contains elem (str ":") ≡ true → Returns (parse_field elem)
unfolding parse_field contains
parse_field-Returns elem t h = elim (Option-cases (find elem (str ":"))) [
  | inl e ↦ absurd (let z : false ≡ true = ap is_some (sym e) ∙ h in cc)
  | inr (i, e) ↦ rw e (split_field-Returns elem i t e)
]

collect_into-Returns :
    (same : Str → Str → Bool) (h : Headers) (es : List Str)
    → AreTexts es
    → all_fields es ≡ true
    → Returns (collect_into same h es)
unfolding collect_into all_fields
collect_into-Returns same h [] t a = tt
collect_into-Returns same h (e ∷ es) (t, ts) a =
    let (c, a') = &&-eq-true (contains e (str ":")) (all_fields es) a in
    after (parse_field e) refl (parse_field-Returns e t c)
      (λ h'. collect_into-Returns same h' es ts a')
  where
    after :
        (m : Outcome ParseErr (Str × Str))
        → parse_field e ≡ m
        → Returns m
        → ((h' : Headers) → Returns (collect_into same h' es))
        → Returns (collect_into same h (e ∷ es))
    after (ok (k, v)) q r rest = rw (q, collect_into) (rest (insert same h k v).1)
    after (err x) q r rest = rw (q, collect_into) tt
    after panic q r rest = absurd r

pub from_str-Returns :
    (same : Str → Str → Bool) (s : Str) → IsText s → Returns (Fields.from_str same s)
unfolding Fields.from_str
from_str-Returns same s t = elim (Bool-cases (all_fields (lines (trim s)))) [
  | inl e ↦
      rw e (
        collect_into-Returns same [] (lines (trim s)) (lines-AreTexts (trim s) (trim-IsText s t)) e)
  | inr e ↦ rw e tt
]

ok_or-Returns : {E A : Type 0} (o : Option A) (e : E) → Returns (ok_or o e)
ok_or-Returns none e = tt
ok_or-Returns (some a) e = tt

parsed_code-Returns : (p : Parsed) → Returns (Code.parsed_code p)
parsed_code-Returns (number n) = tt
parsed_code-Returns (not_number e) = tt

abbrev Any : {A : Type 0} → A → Type 0
Any a = Unit

status-Returns : (s : Str) → Returns (StatusLine.from_str s)
unfolding StatusLine.from_str Code.from_str
status-Returns s =
    Ensures-bind Any Any (ok_or (next (splitn 3 b' ' (trim s))).0 status_err) _ (ok_or-Returns _ _)
      λ version t.
        Ensures-bind Any Any (ok_or (next (next (splitn 3 b' ' (trim s))).1).0 status_err) _
          (ok_or-Returns _ _)
          λ text t'.
            Ensures-bind Any Any (Code.from_str text) _ (parsed_code-Returns _) λ code t''. tt

next-AreTexts :
    {E : Type 0} (ps : List Str) (e : E)
    → AreTexts ps
    → Ensures IsText (ok_or (next ps).0 e) × AreTexts (next ps).1
next-AreTexts [] e t = (tt, tt)
next-AreTexts (p ∷ ps) e (t, ts) = (t, ts)

text-Returns :
    (same : Str → Str → Bool) (head : Str)
    → IsText head
    → utf8_error head ≡ none
    → Returns (from_head same head)
unfolding from_head
text-Returns same head t e =
    let ps : List Str = splitn 2 b'\n' head in
    let (first, others) = next-AreTexts ps (parse status_err) (splitn-AreTexts 2 b'\n' head t) in
    let (second, none_left) = next-AreTexts (next ps).1 (parse headers_err) others in
    rw e (
      Ensures-bind Any Any (ok_or (next ps).0 (parse status_err)) _ (ok_or-Returns _ _) λ line t1.
        Ensures-bind Any Any (map_err parse (StatusLine.from_str line)) _
          (Ensures-map_err Any parse (StatusLine.from_str line) (status-Returns line))
          λ status t2.
            Ensures-bind IsText Any (ok_or (next (next ps).1).0 (parse headers_err)) _ second
              λ fields t3.
                Ensures-bind Any Any (map_err parse (Fields.from_str same fields)) _
                  (Ensures-map_err Any parse (Fields.from_str same fields)
                    (from_str-Returns same fields t3))
                  λ headers t4. tt)

head-Returns : (same : Str → Str → Bool) (head : Str) → Returns (from_head same head)
head-Returns same head = elim (Option-cases (utf8_error head)) [
  | inl e ↦ text-Returns same head (utf8_error-IsText head e).0 e
  | inr (n, e) ↦ unfold from_head in rw e tt
]

-- Whatever bytes a server sends, `from_head` does not panic: it gives a response or an error.
pub from_head-ne-panic : (same : Str → Str → Bool) (head : Str) → from_head same head ≢ panic
from_head-ne-panic same head = Ensures-ne-panic Any (from_head same head) (head-Returns same head)
