-- ===== src/Uri/Chunks.antt =====
-- `get_chunks` on a valid range: it does not panic, and gives valid ranges.
use http_req.Prelude.{
  ℕ, ◌+◌, ◌-◌, ◌≤◌, ◌<◌, ◌≡◌, Bool-cases, drop-take, refl, ◌∙◌, ap, true, Option, none, some, [],
  ◌∷◌, arith, length, take, drop, inl, inr, ◌==◌, drop-drop, le→leb,
}
use http_req.Text.{Str, starts_with, is_char_boundary, get_range, find}
use http_req.Text.Search.{find-starts_with, starts_with-take}
use http_req.Text.Slices.{
  IsText, IsAscii, IsText-drop, boundary-le-length, boundary_of_drop, starts_char_of_match,
}
use http_req.Error.{ok}
use http_req.Uri.{RangeC, range_c, index, non_empty, chunks_at, get_chunks}

pub record IsRange (s : Str) (r : RangeC) : Type 0 where
  pub ordered : r.start ≤ r.end
  pub start_at : is_char_boundary s r.start ≡ true
  pub end_at : is_char_boundary s r.end ≡ true

abbrev pub text_at : Str → RangeC → Str
text_at s r = take (r.end - r.start) (drop r.start s)

abbrev pub Each : (RangeC → Type 0) → Option RangeC → Type 0
Each P none = Unit
Each P (some r) = P r

pub Each_map :
    (P Q : RangeC → Type 0) → ((r : RangeC) → P r → Q r) → (o : Option RangeC) → Each P o → Each Q o
Each_map P Q f none h = tt
Each_map P Q f (some r) h = f r h

-- The pieces of a range: the first begins where it begins, the second ends where it ends.
pub record IsSplit (s : Str) (r : RangeC) (b a : Option RangeC) : Type 0 where
  pub before : Each (λ x. IsRange s x × (x.start ≡ r.start) × (x.end ≤ r.end)) b
  pub after :
      Each
        (λ x.
          IsRange s x
          × (x.end ≡ r.end)
          × (r.start < x.start)
          × (is_char_boundary s (x.start - 1) ≡ true))
        a
  pub adjacent : Each (λ x. Each (λ y. y.start ≡ x.end + 1) a) b

pub index-IsRange : (s : Str) (r : RangeC) → IsRange s r → index s r ≡ some (text_at s r)
unfolding index get_range
index-IsRange s r v = rw (le→leb r.start r.end v.ordered, v.start_at, v.end_at) refl

pub Each-non_empty : (P : RangeC → Type 0) (r : RangeC) → P r → Each P (non_empty r)
Each-non_empty P r h = elim (Bool-cases (r.start == r.end)) [ inl e ↦ rw e tt | inr e ↦ rw e h ]

-- Where a match in the range stands in the text.
pub match_at :
    (s : Str) (r : RangeC) (sep : Str) {i : ℕ}
    → find (text_at s r) sep ≡ some i
    → (starts_with (drop (r.start + i) s) sep ≡ true) × (length sep ≤ r.end - r.start - i)
match_at s r sep {i} h =
    let e : drop i (text_at s r) ≡ take (r.end - r.start - i) (drop (r.start + i) s) =
      drop-take i (r.end - r.start) (drop r.start s)
      ∙ ap (take (r.end - r.start - i)) (drop-drop i r.start s) in
    starts_with-take _ _ sep (rw e at (find-starts_with (text_at s r) sep h).0)

module _ (s : Str) (t : IsText s) (r : RangeC) (v : IsRange s r) (sep : Str) (a : IsAscii sep)
    (p : 0 < length sep) where
  -- In front of a match, inside it and behind it a character starts.
  boundary_in_match :
      (i k : ℕ)
      → find (text_at s r) sep ≡ some i
      → k ≤ length sep
      → is_char_boundary s (r.start + i + k) ≡ true
  boundary_in_match i k h l =
      let (m, fits) = match_at s r sep h in
      boundary_of_drop s (r.start + i + k) (omega (arith, boundary-le-length s r.end v.end_at)) (
        rw (drop-drop k (r.start + i) s) at (
          starts_char_of_match (drop (r.start + i) s) sep k (IsText-drop (r.start + i) s t) a m p
            l))

  pub chunks_at-IsSplit :
      (o : Option ℕ)
      → find (text_at s r) sep ≡ o
      → IsSplit s r
          (chunks_at r (length sep) (text_at s r) o).0
          (chunks_at r (length sep) (text_at s r) o).1
  unfolding chunks_at
  chunks_at-IsSplit (some i) h =
      let (m, fits) = match_at s r sep h in
      let mid : ℕ = r.start + i + length sep in
      let e : r.start + i + (length sep - 1) ≡ mid - 1 = omega arith in
      record {
        before = Each-non_empty _ (range_c r.start (mid - 1)) (
          record {
            ordered = omega arith;
            start_at = v.start_at;
            end_at = rw e at (boundary_in_match i (length sep - 1) h (omega arith));
          },
          refl,
          omega arith,
        );
        adjacent =
            Each-non_empty (λ x. Each (λ y. y.start ≡ x.end + 1) (non_empty (range_c mid r.end)))
              (range_c r.start (mid - 1))
              (Each-non_empty (λ y. y.start ≡ mid - 1 + 1) (range_c mid r.end) (omega arith));
        after = Each-non_empty _ (range_c mid r.end) (
          record {
            ordered = omega arith;
            start_at = boundary_in_match i (length sep) h (omega arith);
            end_at = v.end_at;
          },
          refl,
          omega arith,
          rw e at (boundary_in_match i (length sep - 1) h (omega arith)),
        );
      }
  chunks_at-IsSplit none h = whole (text_at s r)
    where
      whole :
          (x : Str)
          → IsSplit s r (chunks_at r (length sep) x none).0 (chunks_at r (length sep) x none).1
      whole [] = record { before = tt; after = tt; adjacent = tt }
      whole (c ∷ x) = record { before = (v, refl, omega arith); after = tt; adjacent = tt }

  pub get_chunks_lem :
      {E : Type 0}
      → (p : Option RangeC × Option RangeC) × (get_chunks {E = E} s (some r) sep ≡ ok p)
        × IsSplit s r p.0 p.1
  unfolding get_chunks
  get_chunks_lem = (
    chunks_at r (length sep) (text_at s r) (find (text_at s r) sep),
    rw (index-IsRange s r v) refl,
    chunks_at-IsSplit _ refl,
  )
