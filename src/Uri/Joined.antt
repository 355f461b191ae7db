-- ===== src/Uri/Joined.antt =====
-- What `from_relative` joins a fragment, a query and an absolute path to.
use http_req.Prelude.{ℕ, ◌≡◌, refl, ap, ◌∙◌, ◌⊎◌, inl, inr, true, Option, some, [], ◌∷◌, ◌++◌}
use http_req.Text.{Str, str, str_eq, find, get_range, starts_char}
use http_req.Text.Ranges.{get_range_front, get_range_back}
use http_req.Text.Search.{Lacks, find-append, find-eq-none}
use http_req.Error.{ok}
use http_req.Uri.{Uri}
use http_req.Uri.Access.{path, resource, unwrap_or}
use http_req.Uri.Relative.{
  base_part, part_part, add_part, add_part_start, first_is, join_resource, base_of, relative_text,
}

-- `front` is what stands before the first `c` in `base`, which is all of it if there is none.
abbrev pub Before : ℕ → Str → Str → Type 0
Before c base front = Lacks c front × ((base ≡ front) ⊎ ((t : Str) × (base ≡ front ++ (c ∷ t))))

part_lem :
    (c : ℕ) (rel : Str)
    → starts_char rel ≡ true
    → part_part (c ∷ rel) (find (c ∷ rel) (c ∷ [])) ≡ some rel
unfolding part_part
part_lem c rel h = rw (find-append c [] rel tt) (get_range_back (c ∷ []) rel h)

base_lem :
    (c : ℕ) (base front : Str)
    → starts_char (c ∷ []) ≡ true
    → Before c base front
    → base_part base (find base (c ∷ [])) ≡ some front
unfolding base_part
base_lem c base front h (l, inl e) = rw e (rw (find-eq-none c front l, base_part) refl)
base_lem c base front h (l, inr (t, e)) =
    rw e (rw (find-append c front t l, base_part) (get_range_front front (c ∷ t) h))

add_part_start_lem :
    (c : ℕ) (base front rel : Str)
    → starts_char (c ∷ []) ≡ true
    → starts_char rel ≡ true
    → Before c base front
    → add_part_start base (c ∷ rel) (c ∷ []) ≡ ok (front ++ (c ∷ rel))
unfolding add_part_start add_part
add_part_start_lem c base front rel h k b = rw (base_lem c base front h b, part_lem c rel k) refl

first_lem : (c : ℕ) (rel : Str) → starts_char rel ≡ true → get_range (c ∷ rel) 0 1 ≡ some (c ∷ [])
first_lem c rel h = get_range_front (c ∷ []) rel h

first_is_lem :
    (c : ℕ) (rel pat : Str) → starts_char rel ≡ true → first_is (c ∷ rel) pat ≡ str_eq (c ∷ []) pat
unfolding first_is
first_is_lem c rel pat h = rw (first_lem c rel h) refl

module _ (base rel : Str) (k : starts_char rel ≡ true) where
  join_fragment :
      (p : Option (Option Str))
      → join_resource base p (b'#' ∷ rel) ≡ add_part_start base (b'#' ∷ rel) (str "#")
  unfolding join_resource str_eq
  join_fragment p = rw (first_is_lem b'#' rel (str "#") k) refl

  join_query :
      (p : Option Str)
      → join_resource base (some p) (b'?' ∷ rel)
        ≡ add_part_start (unwrap_or p (str "/")) (b'?' ∷ rel) (str "?")
  unfolding join_resource str_eq
  join_query p = rw (first_is_lem b'?' rel (str "#") k, first_is_lem b'?' rel (str "?") k) refl

  join_root :
      (p : Option (Option Str))
      → join_resource base p (b'/' ∷ rel) ≡ add_part_start base (b'/' ∷ rel) (str "/")
  unfolding join_resource str_eq
  join_root p =
      rw
        (
          first_is_lem b'/' rel (str "#") k,
          first_is_lem b'/' rel (str "?") k,
          first_is_lem b'/' rel (str "/") k,
        )
        refl

relative_text_of :
    (u : Uri) (base front joined relative : Str)
    → resource u ≡ some base
    → base_of u.inner u.path ≡ some front
    → join_resource base (path u) relative ≡ ok joined
    → relative_text u relative ≡ ok (front ++ joined)
unfolding relative_text
relative_text_of u base front joined relative e f g = rw (e, g, f) refl

-- A fragment goes behind the part of the resource in front of the resource's first `#`; what stands in
-- front of the resource stays.
pub relative_text-fragment :
    (u : Uri) (base front b rel : Str)
    → resource u ≡ some base
    → base_of u.inner u.path ≡ some front
    → starts_char rel ≡ true
    → Before b'#' base b
    → relative_text u (b'#' ∷ rel) ≡ ok (front ++ (b ++ (b'#' ∷ rel)))
relative_text-fragment u base front b rel e f k h =
    relative_text_of u base front _ _ e f
      (join_fragment base rel k (path u) ∙ add_part_start_lem b'#' base b rel refl k h)

-- A query goes behind the path, `/` if there is none, up to the path's first `?`; the query and the
-- fragment of the URI are gone.
pub relative_text-query :
    (u : Uri) (base front b rel : Str) (p : Option Str)
    → resource u ≡ some base
    → base_of u.inner u.path ≡ some front
    → starts_char rel ≡ true
    → path u ≡ some p
    → Before b'?' (unwrap_or p (str "/")) b
    → relative_text u (b'?' ∷ rel) ≡ ok (front ++ (b ++ (b'?' ∷ rel)))
relative_text-query u base front b rel p e f k q h = relative_text_of u base front _ _ e f (
    ap (λ x. join_resource base x (b'?' ∷ rel)) q
    ∙ join_query base rel k p
    ∙ add_part_start_lem b'?' (unwrap_or p (str "/")) b rel refl k h)

-- An absolute path takes the place of the resource from the resource's first `/` on.
pub relative_text-root :
    (u : Uri) (base front b rel : Str)
    → resource u ≡ some base
    → base_of u.inner u.path ≡ some front
    → starts_char rel ≡ true
    → Before b'/' base b
    → relative_text u (b'/' ∷ rel) ≡ ok (front ++ (b ++ (b'/' ∷ rel)))
relative_text-root u base front b rel e f k h =
    relative_text_of u base front _ _ e f
      (join_root base rel k (path u) ∙ add_part_start_lem b'/' base b rel refl k h)
