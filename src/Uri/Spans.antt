-- ===== src/Uri/Spans.antt =====
-- Where a text stands in a URI's text, and what `get_chunks` makes of it.
use http_req.Prelude.{
  ℕ, suc, ◌+◌, ◌-◌, ◌≤◌, ◌≡◌, ◌≢◌, refl, sym, ap, ◌∙◌, subst, true, Option, none, some, [], ◌∷◌,
  ◌++◌, ◌==◌, length, take, drop, arith, length-append, append_assoc, append-nil, take-append,
  drop-append, le→leb, if-false, pos-length,
}
use http_req.Text.{Str, starts_char, is_char_boundary, get_range}
use http_req.Text.Ranges.{boundary-append}
use http_req.Text.Search.{Lacks, find-append, find-eq-none}
use http_req.Error.{ok}
use http_req.Uri.Auth.{text_of}
use http_req.Uri.{RangeC, range_c, index, non_empty, chunks_at, get_chunks}

-- The text `x` stands in `s` at the range `r`.
pub record Span (s : Str) (r : RangeC) (x : Str) : Type 0 where
  pub pre : Str
  pub post : Str
  pub whole : s ≡ pre ++ (x ++ post)
  pub start_at : r.start ≡ length pre
  pub end_at : r.end ≡ length pre + length x
  pub char_at : starts_char (x ++ post) ≡ true
  pub char_behind : starts_char post ≡ true

pub starts_char-append :
    (t post : Str) → starts_char t ≡ true → starts_char post ≡ true → starts_char (t ++ post) ≡ true
starts_char-append [] post h k = k
starts_char-append (c ∷ t) post h k = h

get_range_middle :
    (a x b : Str)
    → starts_char (x ++ b) ≡ true
    → starts_char b ≡ true
    → get_range (a ++ (x ++ b)) (length a) (length a + length x) ≡ some x
unfolding get_range
get_range_middle a x b h k =
    let whole : (a ++ x) ++ b ≡ a ++ (x ++ b) = append_assoc a x b in
    let at_end : is_char_boundary (a ++ (x ++ b)) (length a + length x) ≡ true =
      subst (λ n. is_char_boundary (a ++ (x ++ b)) n ≡ true) (length-append a x)
        (subst (λ w. is_char_boundary w (length (a ++ x)) ≡ true) whole
          (boundary-append (a ++ x) b k)) in
    let size : length a + length x - length a ≡ length x = omega arith in
    rw (boundary-append a (x ++ b) h, at_end, le→leb (length a) (length a + length x) (omega arith))
      (ap some (
        ap (λ n. take n (drop (length a) (a ++ (x ++ b)))) size
        ∙ ap (take (length x)) (drop-append a (x ++ b))
        ∙ take-append x b))

pub index-Span : (s : Str) (r : RangeC) (x : Str) → Span s r x → index s r ≡ some x
unfolding index
index-Span s r x p =
    ap (λ w. get_range w r.start r.end) p.whole
    ∙ ap (λ n. get_range (p.pre ++ (x ++ p.post)) n r.end) p.start_at
    ∙ ap (λ n. get_range (p.pre ++ (x ++ p.post)) (length p.pre) n) p.end_at
    ∙ get_range_middle p.pre x p.post p.char_at p.char_behind

-- The two parts of a text.
pub Span-front :
    {s : Str} {r : RangeC} (b t : Str)
    → starts_char t ≡ true
    → Span s r (b ++ t)
    → Span s (range_c r.start (r.start + length b)) b
Span-front b t h p = record {
  pre = p.pre;
  post = t ++ p.post;
  whole = p.whole ∙ ap (λ w. p.pre ++ w) (append_assoc b t p.post);
  start_at = p.start_at;
  end_at = ap (λ n. n + length b) p.start_at;
  char_at = ap starts_char (sym (append_assoc b t p.post)) ∙ p.char_at;
  char_behind = starts_char-append t p.post h p.char_behind;
}

pub Span-back :
    {s : Str} {r : RangeC} (b t : Str)
    → starts_char t ≡ true
    → Span s r (b ++ t)
    → Span s (range_c (r.start + length b) r.end) t
Span-back b t h p = record {
  pre = p.pre ++ b;
  post = p.post;
  whole =
      p.whole
      ∙ ap (λ w. p.pre ++ w) (append_assoc b t p.post)
      ∙ sym (append_assoc p.pre b (t ++ p.post));
  start_at = omega (arith, p.start_at, length-append p.pre b);
  end_at = omega (arith, p.end_at, length-append p.pre b, length-append b t);
  char_at = starts_char-append t p.post h p.char_behind;
  char_behind = p.char_behind;
}

pub Span-whole : (s : Str) → starts_char s ≡ true → Span s (range_c 0 (length s)) s
Span-whole s h = record {
  pre = [];
  post = [];
  whole = sym (append-nil s);
  start_at = refl;
  end_at = omega arith;
  char_at = ap starts_char (append-nil s) ∙ h;
  char_behind = refl;
}

pub non_empty-some : (r : RangeC) → r.start + 1 ≤ r.end → non_empty r ≡ some r
non_empty-some r l = if-false (r.start == r.end) none (some r) (ground (arith, l))

-- The two ranges at the first of the separators.
pub get_chunks-Span :
    {E : Type 0} {s : Str} {r : RangeC} (c : ℕ) (b e : Str)
    → Lacks c b
    → Span s r (b ++ (c ∷ e))
    → get_chunks {E = E} s (some r) (c ∷ [])
      ≡ ok (
        non_empty (range_c r.start (r.start + length b)),
        non_empty (range_c (r.start + length b + 1) r.end),
      )
unfolding get_chunks chunks_at
get_chunks-Span {E} {s} {r} c b e l p =
    let back : r.start + length b + 1 - 1 ≡ r.start + length b = omega arith in
    rw (index-Span s r (b ++ (c ∷ e)) p) (
      rw (find-append c b e l) (
        ap
          (λ n.
            ok (non_empty (range_c r.start n), non_empty (range_c (r.start + length b + 1) r.end)))
          back))

pub record Cut (s : Str) (r : RangeC) (c : ℕ) (b e : Str) (before after : RangeC) : Type 0 where
  pub front : Span s before b
  pub back : Span s after e
  pub starts : before.start ≡ r.start
  pub ends : after.end ≡ r.end
  pub between : after.start ≡ before.end + 1
  -- The separator, alone and with what stands behind it.
  pub alone : Span s (range_c before.end (before.end + 1)) (c ∷ [])
  pub joint : Span s (range_c before.end r.end) (c ∷ e)

-- Two parts that are not empty.
pub cut_lem :
    {E : Type 0} {s : Str} {r : RangeC} (c : ℕ) (b e : Str)
    → Lacks c b
    → b ≢ []
    → e ≢ []
    → starts_char (c ∷ e) ≡ true
    → starts_char e ≡ true
    → Span s r (b ++ (c ∷ e))
    → (x y : RangeC) × (get_chunks {E = E} s (some r) (c ∷ []) ≡ ok (some x, some y))
      × Cut s r c b e x y
cut_lem {E} {s} {r} c b e l b_ne e_ne h k p =
    let x : RangeC = range_c r.start (r.start + length b) in
    let y : RangeC = range_c (r.start + length b + 1) r.end in
    let size : r.end ≡ r.start + (length b + suc (length e)) =
      omega (arith, p.start_at, p.end_at, length-append b (c ∷ e)) in
    let here : non_empty x ≡ some x = non_empty-some x (omega (arith, pos-length b b_ne)) in
    let there : non_empty y ≡ some y = non_empty-some y (omega (arith, pos-length e e_ne)) in
    (
      x,
      y,
      get_chunks-Span c b e l p
          ∙ ap (λ z. ok (z, non_empty y)) here
          ∙ ap (λ z. ok (some x, z)) there,
      record {
        front = Span-front b (c ∷ e) h p;
        back = Span-back (c ∷ []) e k (Span-back b (c ∷ e) h p);
        starts = refl;
        ends = refl;
        between = refl;
        alone = Span-front (c ∷ []) e k (Span-back b (c ∷ e) h p);
        joint = Span-back b (c ∷ e) h p;
      },
    )

-- A text without the separator is the first part.
pub whole_lem :
    {E : Type 0} {s : Str} {r : RangeC} (c : ℕ) (x : Str)
    → Lacks c x
    → x ≢ []
    → Span s r x
    → get_chunks {E = E} s (some r) (c ∷ []) ≡ ok (some r, none)
unfolding get_chunks chunks_at
whole_lem {E} {s} {r} c [] l ne p = absurd (ne refl)
whole_lem {E} {s} {r} c (b ∷ x) l ne p =
    rw (index-Span s r (b ∷ x) p) (rw (find-eq-none c (b ∷ x) l) refl)

-- Where an optional part stands.
abbrev pub StandsAt : Str → Option Str → Option RangeC → Type 0
StandsAt s none o = o ≡ none
StandsAt s (some x) o = (r : RangeC) × (o ≡ some r) × Span s r x

pub text_of-StandsAt :
    (s : Str) (x : Option Str) (o : Option RangeC) → StandsAt s x o → text_of s o ≡ some x
unfolding text_of
text_of-StandsAt s none o e = rw e refl
text_of-StandsAt s (some x) o (r, e, p) = rw e (rw (index-Span s r x p, text_of) refl)
