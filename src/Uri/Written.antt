-- ===== src/Uri/Written.antt =====
-- A URI written from its parts, and what `Uri::try_from` and the accessors make of it.
use http_req.Prelude.{
  ◌≡◌, ◌≢◌, refl, sym, ap, ◌∙◌, subst, true, false, Option, none, some, [], ◌∷◌, ◌++◌, arith,
  length-append, append_assoc, append-nil, ne-nil,
}
use http_req.Text.{Str, str, starts_char, contains}
use http_req.Text.Search.{Lacks, Lacks-append, contains-append, contains-eq-false}
use http_req.Error.{Error, ok}
use http_req.Uri.{RangeC}
use http_req.Uri.Parse.{split_path, Parts}
use http_req.Uri.Spans.{Span, starts_char-append, index-Span, cut_lem, StandsAt}

abbrev pub query_text : Option Str → Str
query_text none = []
query_text (some x) = b'?' ∷ x

abbrev pub fragment_text : Option Str → Str
fragment_text none = []
fragment_text (some x) = b'#' ∷ x

-- A part that is there is not empty and starts with a character.
abbrev pub IsPart : Str → Type 0
IsPart x = (x ≢ []) × (starts_char x ≡ true)

abbrev pub IsQuery : Option Str → Type 0
IsQuery none = Unit
IsQuery (some x) = IsPart x × Lacks b'#' x

-- Without a query, a `?` in the fragment is taken for the start of one.
abbrev pub IsFragment : Option Str → Option Str → Type 0
IsFragment q none = Unit
IsFragment none (some y) = IsPart y × Lacks b'?' y
IsFragment (some x) (some y) = IsPart y

pub record Split (s : Str) (u : RangeC) (path : Str) (q f : Option Str) (o : Parts) : Type 0 where
  pub at : RangeC
  pub is_path : o.0 ≡ some at
  pub path_at : Span s at path
  pub path_start : at.start ≡ u.start
  pub query_at : StandsAt s q o.1
  pub fragment_at : StandsAt s f o.2

module _ (s : Str) (u : RangeC) (path : Str) (part : IsPart path) (no_query : Lacks b'?' path)
    (no_fragment : Lacks b'#' path) where
  abbrev Splits : Option Str → Option Str → Type 0
  Splits q f = (o : Parts) × (split_path s (some u) ≡ ok o) × Split s u path q f o

  split_bare : Span s u (path ++ ([] ++ [])) → Splits none none
  unfolding split_path
  split_bare p =
      let q : Span s u path = subst (Span s u) (append-nil path) p in
      (
        (some u, none, none),
        rw (index-Span s u path q) (
            rw (contains-eq-false b'?' path no_query, contains-eq-false b'#' path no_fragment)
              refl),
        record {
          at = u;
          is_path = refl;
          path_at = q;
          path_start = refl;
          query_at = refl;
          fragment_at = refl;
        },
      )

  split_query :
      (x : Str)
      → IsPart x
      → Lacks b'#' x
      → Span s u (path ++ ((b'?' ∷ x) ++ []))
      → Splits (some x) none
  unfolding split_path
  split_query x (ne, h) l p =
      let text : Str = path ++ (b'?' ∷ x) in
      let q : Span s u text = subst (λ w. Span s u (path ++ w)) (append-nil (b'?' ∷ x)) p in
      let (a, b, z, c) = cut_lem {E = Error} b'?' path x no_query part.0 ne refl h q in
      let no : contains text (str "#") ≡ false =
        contains-eq-false b'#' text (Lacks-append b'#' path (b'?' ∷ x) no_fragment (refl, l)) in
      (
        (some a, some b, none),
        rw (index-Span s u text q) (rw (contains-append b'?' path x) (rw no (rw z refl))),
        record {
          at = a;
          is_path = refl;
          path_at = c.front;
          path_start = c.starts;
          query_at = (b, refl, c.back);
          fragment_at = refl;
        },
      )

  split_fragment :
      (y : Str)
      → IsPart y
      → Lacks b'?' y
      → Span s u (path ++ ([] ++ (b'#' ∷ y)))
      → Splits none (some y)
  unfolding split_path
  split_fragment y (ne, h) l p =
      let text : Str = path ++ (b'#' ∷ y) in
      let (a, b, z, c) = cut_lem {E = Error} b'#' path y no_fragment part.0 ne refl h p in
      let no : contains text (str "?") ≡ false =
        contains-eq-false b'?' text (Lacks-append b'?' path (b'#' ∷ y) no_query (refl, l)) in
      (
        (some a, none, some b),
        rw (index-Span s u text p) (rw no (rw (contains-append b'#' path y) (rw z refl))),
        record {
          at = a;
          is_path = refl;
          path_at = c.front;
          path_start = c.starts;
          query_at = refl;
          fragment_at = (b, refl, c.back);
        },
      )

  split_both :
      (x y : Str)
      → IsPart x
      → Lacks b'#' x
      → IsPart y
      → Span s u (path ++ ((b'?' ∷ x) ++ (b'#' ∷ y)))
      → Splits (some x) (some y)
  unfolding split_path
  split_both x y (ne, h) l (ne', h') p =
      let rest : Str = x ++ (b'#' ∷ y) in
      let text : Str = path ++ (b'?' ∷ rest) in
      let rest_ne : rest ≢ [] = ne-nil rest (omega (arith, length-append x (b'#' ∷ y))) in
      let rest_char : starts_char rest ≡ true = starts_char-append x (b'#' ∷ y) h refl in
      let (a, t, z, c) =
        cut_lem {E = Error} b'?' path rest no_query part.0 rest_ne refl rest_char p in
      let (b, d, z', c') = cut_lem {E = Error} b'#' x y l ne ne' refl h' c.back in
      let has : contains text (str "#") ≡ true =
        ap (λ w. contains w (str "#")) (sym (append_assoc path (b'?' ∷ x) (b'#' ∷ y)))
        ∙ contains-append b'#' (path ++ (b'?' ∷ x)) y in
      (
        (some a, some b, some d),
        rw (index-Span s u text p)
            (rw (contains-append b'?' path rest) (rw has (rw z (rw z' refl)))),
        record {
          at = a;
          is_path = refl;
          path_at = c.front;
          path_start = c.starts;
          query_at = (b, refl, c'.front);
          fragment_at = (d, refl, c'.back);
        },
      )

  pub split_path_lem :
      (q f : Option Str)
      → IsQuery q
      → IsFragment q f
      → Span s u (path ++ (query_text q ++ fragment_text f))
      → Splits q f
  split_path_lem none none h k p = split_bare p
  split_path_lem none (some y) h (k, l) p = split_fragment y k l p
  split_path_lem (some x) none (h, l) k p = split_query x h l p
  split_path_lem (some x) (some y) (h, l) k p = split_both x y h l k p
