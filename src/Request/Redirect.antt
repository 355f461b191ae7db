-- ===== src/Request/Redirect.antt =====
-- src/request.rs: `RedirectPolicy`.
use http_req.Prelude.{
  ℕ, zero, suc, ◌-◌, ◌≡◌, refl, ap, ◌∙◌, Bool, true, false, List, [], ◌∷◌, ◌++◌, length, replicate,
  min, arith, if◌then◌else◌, ◌==◌, map,
}
use http_req.Text.{Str}

pub data RedirectPolicy : Type 0 where
  limit : ℕ → RedirectPolicy
  custom : (Str → Bool) → RedirectPolicy

-- The answer, and the policy as it is left.
unfoldable pub follow : RedirectPolicy → Str → Bool × RedirectPolicy
follow (limit n) uri = if n == 0 then (false, limit n) else (true, limit (n - 1))
follow (custom f) uri = (f uri, custom f)

unfoldable pub default : RedirectPolicy
default = limit 5

abbrev answers_from : (RedirectPolicy → List Bool) → Bool × RedirectPolicy → List Bool
answers_from rest (b, p) = b ∷ rest p

-- The answers to one location after the other.
unfoldable pub answers : RedirectPolicy → List Str → List Bool
answers p [] = []
answers p (uri ∷ uris) = answers_from (λ q. answers q uris) (follow p uri)

pub follow_none : (uri : Str) → follow (limit 0) uri ≡ (false, limit 0)
unfolding follow
follow_none uri = refl

pub follow_some : (n : ℕ) (uri : Str) → follow (limit (suc n)) uri ≡ (true, limit n)
unfolding follow
follow_some n uri = ground arith

abbrev split_at_limit : ℕ → ℕ → List Bool
split_at_limit first others = replicate first true ++ replicate others false

answers_limit :
    (n : ℕ) (uris : List Str)
    → answers (limit n) uris ≡ split_at_limit (min n (length uris)) (length uris - n)
unfolding answers
answers_limit n [] =
    let a : 0 ≡ min n 0 = omega arith in
    let b : 0 ≡ 0 - n = omega arith in
    ap (λ k. split_at_limit k 0) a ∙ ap (split_at_limit (min n 0)) b
answers_limit zero (uri ∷ uris) =
    let a : 0 ≡ min 0 (suc (length uris)) = omega arith in
    let b : min 0 (length uris) ≡ 0 = omega arith in
    let d : suc (length uris - 0) ≡ suc (length uris) - 0 = omega arith in
    ap (answers_from (λ q. answers q uris)) (follow_none uri)
    ∙ ap (◌∷◌ false) (answers_limit zero uris ∙ ap (λ k. split_at_limit k (length uris - 0)) b)
    ∙ ap (λ k. split_at_limit k (suc (length uris - 0))) a
    ∙ ap (split_at_limit (min 0 (suc (length uris)))) d
answers_limit (suc n) (uri ∷ uris) =
    let a : suc (min n (length uris)) ≡ min (suc n) (suc (length uris)) = omega arith in
    let b : length uris - n ≡ suc (length uris) - suc n = omega arith in
    ap (answers_from (λ q. answers q uris)) (follow_some n uri)
    ∙ ap (◌∷◌ true) (answers_limit n uris)
    ∙ ap (λ k. split_at_limit k (length uris - n)) a
    ∙ ap (split_at_limit (min (suc n) (suc (length uris)))) b

answers_custom : (f : Str → Bool) (uris : List Str) → answers (custom f) uris ≡ map f uris
unfolding answers follow
answers_custom f [] = refl
answers_custom f (uri ∷ uris) = ap (◌∷◌ (f uri)) (answers_custom f uris)

-- A limit of `n` says yes to the first `n` locations and no to all others, whatever they are; a
-- function is asked about each location.
pub answers_lem :
    (uris : List Str) (n : ℕ) (f : Str → Bool)
    → (answers (limit n) uris
        ≡ replicate (min n (length uris)) true ++ replicate (length uris - n) false)
      × (answers (custom f) uris ≡ map f uris)
answers_lem uris n f = (answers_limit n uris, answers_custom f uris)
