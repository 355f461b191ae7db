-- ===== src/Response/StatusLine/Laws.antt =====
-- A status line as a server writes it, and `Status::from_str` on it.
use http_req.Prelude.{ℕ, ◌<◌, ◌≡◌, refl, sym, ap, ◌∙◌, subst, [], ◌∷◌, ◌++◌, append_assoc}
use http_req.Text.{Str}
use http_req.Text.Number.{u16_bound, decimal}
use http_req.Text.Number.Laws.{decimal-AreDigits, AreDigits-Lacks}
use http_req.Text.Search.{Lacks, Lacks-append}
use http_req.Text.White.{trim, is_ascii_white}
use http_req.Text.White.Laws.{Dark, Visible, trim_lem}
use http_req.Text.Pieces.{splitn}
use http_req.Text.Pieces.Laws.{splitn_first, splitn_rest}
use http_req.Error.{ok}
use http_req.Response.Code as Code
use http_req.Response.Code.{StatusCode}
use http_req.Response.Code.Laws.{from_str-display}
use http_req.Response.Fields.Text.{Visible-front}
use http_req.Response.StatusLine.{Status, new, from_str}

abbrev pub status_line : Status → Str
status_line s = s.version ++ (b' ' ∷ (decimal s.code.value ++ (b' ' ∷ s.reason)))

-- A version that starts with a visible character and has no space and no newline, a code of 16
-- bits, and a reason on one line that starts and ends with a visible character.
pub record IsStatus (s : Status) : Type 0 where
  pub first : ℕ
  pub others : Str
  pub starts : s.version ≡ first ∷ others
  pub dark : Dark first
  pub no_space : Lacks b' ' s.version
  pub one_line : Lacks b'\n' s.version
  pub fits : s.code.value < u16_bound
  pub reason_line : Lacks b'\n' s.reason
  pub reason_visible : Visible s.reason

status_line-Visible : (s : Status) → IsStatus s → Visible (status_line s)
status_line-Visible s h =
    let middle : Str = b' ' ∷ (decimal s.code.value ++ b' ' ∷ []) in
    let tail : Str = b' ' ∷ (decimal s.code.value ++ (b' ' ∷ s.reason)) in
    let inner : h.first ∷ ((h.others ++ middle) ++ s.reason) ≡ (h.first ∷ h.others) ++ tail =
      simp append_assoc in
    let same : h.first ∷ ((h.others ++ middle) ++ s.reason) ≡ status_line s =
      inner ∙ ap (λ x. x ++ tail) (sym h.starts) in
    subst Visible same (Visible-front h.first (h.others ++ middle) h.dark h.reason_visible)

pub status_line-Lacks : (s : Status) → IsStatus s → Lacks b'\n' (status_line s)
status_line-Lacks s h =
    Lacks-append b'\n' s.version (b' ' ∷ (decimal s.code.value ++ (b' ' ∷ s.reason))) h.one_line (
      refl,
      Lacks-append b'\n' (decimal s.code.value) (b' ' ∷ s.reason)
          (AreDigits-Lacks (decimal s.code.value) b'\n' refl (decimal-AreDigits s.code.value))
          (refl, h.reason_line),
    )

pieces :
    (s : Status)
    → IsStatus s
    → splitn 3 b' ' (status_line s) ≡ s.version ∷ decimal s.code.value ∷ s.reason ∷ []
pieces s h =
    splitn_first 1 b' ' s.version (decimal s.code.value ++ (b' ' ∷ s.reason)) h.no_space
    ∙ ap (λ x. s.version ∷ x)
        (splitn_first 0 b' ' (decimal s.code.value) s.reason
          (AreDigits-Lacks (decimal s.code.value) b' ' refl (decimal-AreDigits s.code.value)))
    ∙ ap (λ x. s.version ∷ decimal s.code.value ∷ x) (splitn_rest b' ' s.reason)

-- A status line with its CR is read back, for every 16-bit code.
pub from_str-status_line : (s : Status) → IsStatus s → from_str (status_line s ++ b'\r' ∷ []) ≡ ok s
unfolding from_str new is_ascii_white Code.display
from_str-status_line s h =
    let trimmed : trim (status_line s ++ b'\r' ∷ []) ≡ status_line s =
      trim_lem [] (status_line s) (b'\r' ∷ []) tt (refl, tt) (status_line-Visible s h) in
    rw trimmed (rw (pieces s h) (rw (from_str-display s.code h.fits) refl))
