-- ===== src/Response/Fields/Text.antt =====
-- Headers written as lines, and `Headers::from_str` on them.
use http_req.Prelude.{
  ℕ, ◌≡◌, ◌≢◌, refl, sym, subst, reverse, reverse-append, ap, ◌∙◌, Bool, true, List, [], ◌∷◌, ◌++◌,
  append_assoc, append-nil,
}
use http_req.Text.{Str}
use http_req.Text.Search.{Lacks, Lacks-append, find-append, contains-append}
use http_req.Text.Ranges.{get_range_front, get_range_back}
use http_req.Text.White.{trim, is_ascii_white}
use http_req.Text.White.Laws.{Dark, AreWhite, AreWhite-append, Visible, one, more, trim_lem}
use http_req.Text.Pieces.{lines}
use http_req.Text.Pieces.Laws.{lines_more, lines_last}
use http_req.Error.{ok}
use http_req.Response.Fields.{
  Headers, insert, split_field, parse_field, all_fields, collect_into, from_str,
}

-- `key: val`
abbrev pub field : Str → Str → Str
field k v = k ++ (b':' ∷ b' ' ∷ v)

-- The lines of the headers, each with its CR LF, as a request message has them.
unfoldable pub block : Headers → Str
block [] = []
block ((k, v) ∷ h) = field k v ++ (b'\r' ∷ b'\n' ∷ block h)

-- Keys that are not empty, start with a visible character and have no colon and no newline, and
-- values on one line that start and end with a visible character.
abbrev pub AreFields : Headers → Type 0
AreFields [] = Unit
AreFields ((k, v) ∷ h) =
    ((c : ℕ) × (s : Str) × (k ≡ c ∷ s) × Dark c)
    × Lacks b':' k
    × Lacks b'\n' k
    × Lacks b'\n' v
    × Visible v
    × AreFields h

-- A line of a block is taken apart again.
parse_field_lem : (k v : Str) → Lacks b':' k → Visible v → parse_field (field k v) ≡ ok (k, v)
unfolding parse_field split_field is_ascii_white
parse_field_lem k v l x =
    let trimmed : trim (b' ' ∷ v) ≡ v =
      ap (λ y. trim (b' ' ∷ y)) (sym (append-nil v)) ∙ trim_lem (b' ' ∷ []) v [] (refl, tt) tt x in
    rw (find-append b':' k (b' ' ∷ v) l) (
      rw (get_range_front k (b':' ∷ b' ' ∷ v) refl) (
        rw (get_range_back k (b':' ∷ b' ' ∷ v) refl)
          (rw (get_range_back (b':' ∷ []) (b' ' ∷ v) refl, trimmed) refl)))

-- The block without the end of its last line.
abbrev bare : Headers → Str
bare [] = []
bare ((k, v) ∷ []) = field k v
bare ((k, v) ∷ e ∷ h) = (field k v ++ b'\r' ∷ []) ++ (b'\n' ∷ bare (e ∷ h))

block-bare :
    (k v : Str) (h : Headers) → block ((k, v) ∷ h) ≡ bare ((k, v) ∷ h) ++ (b'\r' ∷ b'\n' ∷ [])
unfolding block
block-bare k v [] = refl
block-bare k v ((k', v') ∷ h) =
    ap (λ x. field k v ++ (b'\r' ∷ b'\n' ∷ x)) (block-bare k' v' h) ∙ simp append_assoc

abbrev texts : Headers → List Str
texts [] = []
texts ((k, v) ∷ h) = field k v ∷ texts h

pub field-Lacks : (k v : Str) → Lacks b'\n' k → Lacks b'\n' v → Lacks b'\n' (field k v)
field-Lacks k v l l' = Lacks-append b'\n' k (b':' ∷ b' ' ∷ v) l (refl, (refl, l'))

lines-bare :
    (k v : Str) (h : Headers)
    → AreFields ((k, v) ∷ h)
    → lines (bare ((k, v) ∷ h)) ≡ texts ((k, v) ∷ h)
lines-bare k v [] ((c, s, e, d), l, n, n', x, a) =
    ap (λ y. lines (field y v)) e
    ∙ lines_last c (s ++ (b':' ∷ b' ' ∷ v)) (rw e at (field-Lacks k v n n'))
    ∙ ap (λ y. field y v ∷ []) (sym e)
lines-bare k v ((k', v') ∷ h) (c, l, n, n', x, a) =
    lines_more (field k v) (bare ((k', v') ∷ h)) (field-Lacks k v n n')
    ∙ ap (λ y. field k v ∷ y) (lines-bare k' v' h a)

all_fields-texts : (h : Headers) → all_fields (texts h) ≡ true
unfolding all_fields
all_fields-texts [] = refl
all_fields-texts ((k, v) ∷ h) = rw (contains-append b':' k (b' ' ∷ v)) (all_fields-texts h)

pub Visible-front : (c : ℕ) (s : Str) {x : Str} → Dark c → Visible x → Visible (c ∷ (s ++ x))
Visible-front c s d (one b d' e) = more c s b d d' (rw e refl)
Visible-front c s d (more b m b' d' d'' e) =
    more c (s ++ (b ∷ m)) b' d d'' (rw e (simp append_assoc))

bare-Visible : (k v : Str) (h : Headers) → AreFields ((k, v) ∷ h) → Visible (bare ((k, v) ∷ h))
bare-Visible k v [] ((c, s, e, d), l, n, n', x, a) =
    let same : c ∷ ((s ++ (b':' ∷ b' ' ∷ [])) ++ v) ≡ field k v = rw e (simp append_assoc) in
    subst Visible same (Visible-front c (s ++ (b':' ∷ b' ' ∷ [])) d x)
bare-Visible k v ((k', v') ∷ h) ((c, s, e, d), l, n, n', x, a) =
    let front : Str = (s ++ (b':' ∷ b' ' ∷ v)) ++ (b'\r' ∷ b'\n' ∷ []) in
    let same : c ∷ (front ++ bare ((k', v') ∷ h)) ≡ bare ((k, v) ∷ (k', v') ∷ h) =
      rw e (simp append_assoc) in
    subst Visible same (Visible-front c front d (bare-Visible k' v' h a))

-- What the map has of the entries, put in one after the other.
abbrev pub inserted : (Str → Str → Bool) → Headers → Headers → Headers
inserted same acc [] = acc
inserted same acc ((k, v) ∷ h) = inserted same (insert same acc k v).1 h

collect_into-texts :
    (same : Str → Str → Bool) (acc h : Headers)
    → AreFields h
    → collect_into same acc (texts h) ≡ ok (inserted same acc h)
unfolding collect_into
collect_into-texts same acc [] a = refl
collect_into-texts same acc ((k, v) ∷ h) (c, l, n, n', x, a) =
    rw (parse_field_lem k v l x, collect_into) (collect_into-texts same (insert same acc k v).1 h a)

-- Headers that are written as lines, with any white space behind them, are read back: the map has
-- the entries, put in one after the other.
pub from_str-block :
    (same : Str → Str → Bool) (h : Headers) (ws : Str)
    → AreFields h
    → h ≢ []
    → AreWhite (reverse ws)
    → from_str same (block h ++ ws) ≡ ok (inserted same [] h)
unfolding from_str is_ascii_white
from_str-block same [] ws a ne w = absurd (ne refl)
from_str-block same ((k, v) ∷ h) ws a ne w =
    let all : Headers = (k, v) ∷ h in
    let white : AreWhite (reverse (b'\r' ∷ b'\n' ∷ ws)) =
      subst AreWhite (sym (reverse-append (b'\r' ∷ b'\n' ∷ []) ws))
        (AreWhite-append (reverse ws) (b'\n' ∷ b'\r' ∷ []) w (refl, (refl, tt))) in
    let trimmed : trim (block all ++ ws) ≡ bare all =
      ap (λ x. trim (x ++ ws)) (block-bare k v h)
      ∙ ap trim (append_assoc (bare all) (b'\r' ∷ b'\n' ∷ []) ws)
      ∙ trim_lem [] (bare all) (b'\r' ∷ b'\n' ∷ ws) tt white (bare-Visible k v h a) in
    rw trimmed
      (rw (lines-bare k v h a) (rw (all_fields-texts all) (collect_into-texts same [] all a)))
