-- ===== src/Response/Code/Laws.antt =====
-- The classes, the reasons and the text of a `StatusCode`.
use http_req.Prelude.{
  ℕ, ◌/◌, ◌<◌, ◌≡◌, refl, sym, ap, ◌⊎◌, &&-eq-true, ◌∙◌, Bool, true, false, ◌&&◌, ◌||◌, List, [],
  ◌∷◌, ◌==◌, arith, ==_iff, Bool-cases, inl, inr, is_some,
}
use http_req.Text.{Str}
use http_req.Text.Number.{u16_bound}
use http_req.Text.Number.Laws.{parse_uint-decimal}
use http_req.Error.{ok}
use http_req.Response.Code.{
  StatusCode, new, is_info, is_success, is_redirect, is_client_err, is_server_err, reasons,
  reason_in, non_empty, reason, display, from_str,
}

-- Each of the five tests is the test of the first of three digits, so at most one of them holds.
pub classes_lem :
    (c : StatusCode)
    → (is_info c ≡ (c.value / 100 == 1))
      × (is_success c ≡ (c.value / 100 == 2))
      × (is_redirect c ≡ (c.value / 100 == 3))
      × (is_client_err c ≡ (c.value / 100 == 4))
      × (is_server_err c ≡ (c.value / 100 == 5))
unfolding is_info is_success is_redirect is_client_err is_server_err
classes_lem c = (ground arith, ground arith, ground arith, ground arith, ground arith)

abbrev pub in_a_class : StatusCode → Bool
in_a_class c = is_info c || is_success c || is_redirect c || is_client_err c || is_server_err c

abbrev all_in : List (ℕ × Str) → Bool
all_in [] = true
all_in ((code, text) ∷ arms) = in_a_class (new code) && all_in arms

reasons_in : all_in reasons ≡ true
unfolding is_info is_success is_redirect is_client_err is_server_err new
reasons_in = refl

reason_in-none : (n : ℕ) → reason_in [] n ≡ []
unfolding reason_in
reason_in-none n = refl

reason_in_class :
    (arms : List (ℕ × Str)) (n : ℕ)
    → all_in arms ≡ true
    → (reason_in arms n ≡ []) ⊎ (in_a_class (new n) ≡ true)
unfolding reason_in
reason_in_class [] n h = inl refl
reason_in_class ((code, text) ∷ arms) n h =
    let (here, rest) = &&-eq-true (in_a_class (new code)) (all_in arms) h in
    elim (Bool-cases (n == code)) [
      | inl e ↦ inr (ap (λ x. in_a_class (new x)) ((==_iff n code).0 e) ∙ here)
      | inr ne ↦ rw ne (reason_in_class arms n rest)
    ]

-- A code that has a reason phrase is in one of the five classes; the others have none.
pub reason_lem : (c : StatusCode) → is_some (reason c) ≡ true → in_a_class c ≡ true
unfolding reason new
reason_lem c h = elim (reason_in_class reasons c.value reasons_in) [
  | inl e ↦ absurd (let z : true ≡ false = sym h ∙ ap (λ x. is_some (non_empty x)) e in cc)
  | inr k ↦ k
]

-- The text of a code is parsed back to the code, for all 2^16 values of the type.
pub from_str-display : (c : StatusCode) → c.value < u16_bound → from_str (display c) ≡ ok c
unfolding from_str display new
from_str-display c l = rw (parse_uint-decimal u16_bound c.value l) refl
