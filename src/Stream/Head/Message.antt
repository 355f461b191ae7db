-- ===== src/Stream/Head/Message.antt =====
-- `read_head` on a response as a server writes it, and `Response::from_head` on what it takes.
use http_req.Prelude.{
  ℕ, ◌<◌, ◌≡◌, ◌≢◌, refl, sym, ap, ◌∙◌, Bool, none, some, [], ◌∷◌, ◌++◌, length, append_assoc,
}
use http_req.Text.{Str}
use http_req.Text.Search.{Lacks, Lacks-append}
use http_req.Text.Number.{decimal}
use http_req.Text.Utf8.{utf8_error}
use http_req.Error.{ok}
use http_req.Reader.{Reader, ReaderLaws}
use http_req.Response.Fields.{Headers}
use http_req.Response.Fields.Text.{field, field-Lacks, block, AreFields, inserted}
use http_req.Response.StatusLine.{Status}
use http_req.Response.StatusLine.Laws.{IsStatus, status_line, status_line-Lacks}
use http_req.Response.Message.{from_head}
use http_req.Response.Message.Laws.{head_text, from_head-head_text}
use http_req.Stream.Head.{lf, read_head}
use http_req.Stream.Head.Laws.{HeadOf, blank, line, read_head_lem}

front-ne : (c : ℕ) (s : Str) (b : ℕ) (t : Str) → (c ∷ s) ++ (b ∷ t) ≢ b'\r' ∷ []
front-ne c [] b t e = cc
front-ne c (a ∷ s) b t e = cc

-- A line of a head with its CR.
cr_line :
    {rest s k t h : Str} (l : Str) (c : ℕ) (u : Str)
    → l ≡ c ∷ u
    → Lacks lf l
    → HeadOf rest s k
    → t ≡ l ++ (b'\r' ∷ lf ∷ s)
    → h ≡ l ++ (b'\r' ∷ lf ∷ k)
    → HeadOf rest t h
cr_line {rest} {s} {k} l c u e lacks x p q =
    let ne : l ++ b'\r' ∷ [] ≢ b'\r' ∷ [] =
      λ z. front-ne c u b'\r' [] (sym (ap (λ w. w ++ b'\r' ∷ []) e) ∙ z) in
    line (l ++ b'\r' ∷ []) s k (Lacks-append lf l (b'\r' ∷ []) lacks (refl, tt)) ne x
      (p ∙ sym (append_assoc l (b'\r' ∷ []) (lf ∷ s)))
      (q ∙ sym (append_assoc l (b'\r' ∷ []) (lf ∷ k)))

block-HeadOf :
    (h : Headers) (rest : Str)
    → AreFields h
    → HeadOf rest (block h ++ (b'\r' ∷ b'\n' ∷ rest)) (block h ++ (b'\r' ∷ b'\n' ∷ []))
unfolding block
block-HeadOf [] rest a = blank refl refl
block-HeadOf ((k, v) ∷ h) rest ((c, s, e, d), l, n, n', x, a) =
    cr_line (field k v) c (s ++ (b':' ∷ b' ' ∷ v)) (ap (λ w. field w v) e) (field-Lacks k v n n')
      (block-HeadOf h rest a)
      (append_assoc (field k v) (b'\r' ∷ b'\n' ∷ block h) (b'\r' ∷ b'\n' ∷ rest))
      (append_assoc (field k v) (b'\r' ∷ b'\n' ∷ block h) (b'\r' ∷ b'\n' ∷ []))

pub head_text-HeadOf :
    (s : Status) (h : Headers) (rest : Str)
    → IsStatus s
    → AreFields h
    → HeadOf rest (head_text s h ++ rest) (head_text s h)
head_text-HeadOf s h rest k a =
    let tail : Str = b' ' ∷ (decimal s.code.value ++ (b' ' ∷ s.reason)) in
    cr_line (status_line s) k.first (k.others ++ tail) (ap (λ w. w ++ tail) k.starts)
      (status_line-Lacks s k) (block-HeadOf h rest a)
      (append_assoc (status_line s) (b'\r' ∷ b'\n' ∷ (block h ++ (b'\r' ∷ b'\n' ∷ []))) rest
        ∙ ap (λ w. status_line s ++ (b'\r' ∷ b'\n' ∷ w))
            (append_assoc (block h) (b'\r' ∷ b'\n' ∷ []) rest))
      refl

-- A response that starts with a head of valid UTF-8 with at least one header, on a stream without
-- faults: `read_head` takes the head and leaves the body, and `from_head` reads from the head what
-- was written.
pub read_head-head_text :
    (R : Reader) (L : ReaderLaws R) (same : Str → Str → Bool) (fuel : ℕ) (r : R.Rd) (s : Status)
    (h : Headers) (body : Str)
    → IsStatus s
    → AreFields h
    → h ≢ []
    → utf8_error (head_text s h) ≡ none
    → L.Yields r (head_text s h ++ body)
    → length (head_text s h ++ body) < fuel
    → (head : Str) × (r' : R.Rd) × (read_head R fuel r ≡ some (head, r'))
      × L.Yields r' body
      × (from_head same head ≡ ok (record { status = s; headers = inserted same [] h }))
read_head-head_text R L same fuel r s h body k a ne valid y l =
    let (r', q, y') =
      read_head_lem R L fuel r (head_text s h ++ body) (head_text s h) body y
        (head_text-HeadOf s h body k a) l in
    (head_text s h, r', q, y', from_head-head_text same s h k a ne valid)
