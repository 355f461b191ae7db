-- ===== src/Response/Fields/Order.antt =====
-- `Headers` as a map whose entries come in any order: each key stands once, and `get` does not depend
-- on the order.
use mathlib.Core.List.{Permᴰ}
use http_req.Prelude.{
  ◌≡◌, ◌≢◌, refl, sym, ap, ◌∙◌, subst, Bool, true, false, Option, none, some, [], ◌∷◌, ◌++◌,
  reverse, if◌then◌else◌, if-false, Bool-cases, inl, inr,
}
use http_req.Text.{Str}
use http_req.Text.White.Laws.{AreWhite}
use http_req.Error.{ok}
use http_req.Response.Fields.{Headers, get, insert, from_str}
use http_req.Response.Fields.Laws.{Unicase, same_trans, same_sym, get-insert}
use http_req.Response.Fields.Text.{block, AreFields, inserted, from_str-block}

module _ (same : Str → Str → Bool) where
  -- No two entries have the same key.
  abbrev pub Distinct : Headers → Type 0
  Distinct [] = Unit
  Distinct ((k, v) ∷ h) = (get same h k ≡ none) × Distinct h

module _ (same : Str → Str → Bool) (lower : Str → Str) (u : Unicase same lower) where
  get-same : (h : Headers) (a b : Str) → same a b ≡ true → get same h a ≡ get same h b
  unfolding get
  get-same [] a b e = refl
  get-same ((k, v) ∷ h) a b e =
      let both : same k a ≡ same k b =
        same_sym same lower u k a ∙ same_trans same lower u a b k e ∙ same_sym same lower u b k in
      rw (both, get-same h a b e) refl

  pub insert-Distinct :
      (h : Headers) (k v : Str) → Distinct same h → Distinct same (insert same h k v).1
  unfolding insert get
  insert-Distinct [] k v d = (refl, tt)
  insert-Distinct ((key, val) ∷ h) k v (n, d) = elim (Bool-cases (same key k)) [
    | inl e ↦ rw (e, Distinct) (n, d)
    | inr e ↦
        let other : same k key ≡ false = same_sym same lower u k key ∙ e in
        rw (e, Distinct)
          (
            get-insert same lower u h k v key
                ∙ if-false (same k key) (some v) (get same h key) other
                ∙ n,
            insert-Distinct h k v d,
          )
  ]

  -- Two entries with different keys in front.
  two_apart :
      (a b : Str) (va vb : Str) (q : Str) (o : Option Str)
      → same a b ≡ false
      → (if same a q then some va else (if same b q then some vb else o))
        ≡ (if same b q then some vb else (if same a q then some va else o))
  two_apart a b va vb q o n = elim (Bool-cases (same a q)) [
    | inl e ↦
        let m : same b q ≡ false =
          same_sym same lower u b q ∙ sym (same_trans same lower u a q b e) ∙ n in
        rw (e, m) refl
    | inr e ↦ rw e refl
  ]

  -- What two maps with the same entries have in common.
  abbrev pub Alike : Headers → Headers → Type 0
  Alike h h' = Distinct same h' × ((k : Str) → get same h k ≡ get same h' k)

  Alike-swap :
      (a b : Str × Str) (l : Headers) → Distinct same (a ∷ b ∷ l) → Alike (a ∷ b ∷ l) (b ∷ a ∷ l)
  unfolding get
  Alike-swap (a, va) (b, vb) l (n, (m, d)) = elim (Bool-cases (same b a)) [
    | inl e ↦ absurd (let z : some vb ≡ none = rw e at n in cc)
    | inr e ↦
        let e' : same a b ≡ false = same_sym same lower u a b ∙ e in
        let n' : get same l a ≡ none = rw e at n in
        ((rw e' m, (n', d)), λ q. two_apart a b va vb q (get same l q) e')
  ]

  pub Perm-Alike : {h h' : Headers} → Permᴰ h h' → Distinct same h → Alike h h'
  unfolding get
  Perm-Alike Permᴰ.nil d = (tt, λ k. refl)
  Perm-Alike (Permᴰ.cons {a} {b} {l₁} {l₂} e p) (n, d) =
      let (d', v) = Perm-Alike p d in
      subst (λ x. Alike (a ∷ l₁) (x ∷ l₂)) e
        ((sym (v a.0) ∙ n, d'), λ k. ap (λ o. if same a.0 k then some a.1 else o) (v k))
  Perm-Alike (Permᴰ.swap {a} {b} {a'} {b'} {l} e e') d =
      subst (λ x. Alike (a ∷ b ∷ l) (x ∷ b' ∷ l)) e'
        (subst (λ y. Alike (a ∷ b ∷ l) (b ∷ y ∷ l)) e (Alike-swap a b l d))
  Perm-Alike (Permᴰ.trans p p') d =
      let (d', same_values) = Perm-Alike p d in
      let (d'', same_values') = Perm-Alike p' d' in (d'', λ k. same_values k ∙ same_values' k)

  inserted-Distinct : (acc h : Headers) → Distinct same acc → Distinct same (inserted same acc h)
  inserted-Distinct acc [] d = d
  inserted-Distinct acc ((k, v) ∷ h) d =
      inserted-Distinct (insert same acc k v).1 h (insert-Distinct acc k v d)

  abbrev or_else : Option Str → Option Str → Option Str
  or_else (some v) o = some v
  or_else none o = o

  or_else-if :
      (k q v : Str) (o o' : Option Str)
      → (same k q ≡ true → o ≡ none)
      → or_else o (if same k q then some v else o') ≡ or_else (if same k q then some v else o) o'
  or_else-if k q v o o' n = elim (Bool-cases (same k q)) [
    | inl e ↦ rw (e, n e) refl
    | inr e ↦ rw e refl
  ]

  get-inserted :
      (acc h : Headers) (q : Str)
      → Distinct same h
      → get same (inserted same acc h) q ≡ or_else (get same h q) (get same acc q)
  unfolding get
  get-inserted acc [] q d = refl
  get-inserted acc ((k, v) ∷ h) q (n, d) =
      get-inserted (insert same acc k v).1 h q d
      ∙ ap (or_else (get same h q)) (get-insert same lower u acc k v q)
      ∙ or_else-if k q v (get same h q) (get same acc q) (λ e. sym (get-same h k q e) ∙ n)

  or_else-none : (o : Option Str) → or_else o none ≡ o
  or_else-none none = refl
  or_else-none (some v) = refl

-- A map in which each key stands once, with at least one entry, is written with its entries, which are
-- proper lines, in any order: a reader of these lines, with any white space behind them, gets a map
-- in which each key stands once and has the value that it has in the map that was written.
pub from_str-block_permuted :
    (same : Str → Str → Bool) (lower : Str → Str) (u : Unicase same lower) (h l : Headers)
    (ws k : Str)
    → Distinct same h
    → Permᴰ h l
    → AreFields l
    → l ≢ []
    → AreWhite (reverse ws)
    → (h' : Headers) × (from_str same (block l ++ ws) ≡ ok h')
      × Distinct same h'
      × (get same h' k ≡ get same h k)
unfolding get
from_str-block_permuted same lower u h l ws k d p a ne w =
    let (d', v) = Perm-Alike same lower u p d in
    (
      inserted same [] l,
      from_str-block same l ws a ne w,
      inserted-Distinct same lower u [] l tt,
      get-inserted same lower u [] l k d' ∙ or_else-none same lower u (get same l k) ∙ sym (v k),
    )
