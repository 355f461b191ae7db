-- ===== src/Response/Fields/Laws.antt =====
-- `Headers` as a map: what `get` gives after `insert`, with keys compared without regard to case.
use http_req.Prelude.{
  ◌≡◌, ◌↔◌, refl, sym, ◌∙◌, Bool, true, false, Option, some, [], ◌∷◌, if◌then◌else◌, Bool-cases,
  inl, inr,
}
use http_req.Text.{Str}
use http_req.Response.Fields.{Headers, get, insert}

-- What `Ascii`'s equality is: the equality of the texts with the letters made lower case.
abbrev pub Unicase : (Str → Str → Bool) → (Str → Str) → Type 0
Unicase same lower = (a b : Str) → (same a b ≡ true) ↔ (lower a ≡ lower b)

module _ (same : Str → Str → Bool) (lower : Str → Str) (u : Unicase same lower) where
  pub same_refl : (a : Str) → same a a ≡ true
  same_refl a = (u a a).1 refl

  pub same_trans : (a b c : Str) → same a b ≡ true → same a c ≡ same b c
  same_trans a b c h = elim (Bool-cases (same b c)) [
    | inl k ↦ (u a c).1 ((u a b).0 h ∙ (u b c).0 k) ∙ sym k
    | inr n ↦ elim (Bool-cases (same a c)) [
      | inl k ↦ absurd (
          let z : same b c ≡ true = (u b c).1 (sym ((u a b).0 h) ∙ (u a c).0 k) in
          let y : true ≡ false = sym z ∙ n in cc)
      | inr k ↦ k ∙ sym n
    ]
  ]

  pub same_sym : (a b : Str) → same a b ≡ same b a
  same_sym a b = elim (Bool-cases (same b a)) [
    | inl k ↦ (u a b).1 (sym ((u b a).0 k)) ∙ sym k
    | inr n ↦ elim (Bool-cases (same a b)) [
      | inl k ↦ k ∙ sym ((u b a).1 (sym ((u a b).0 k)))
      | inr k ↦ k ∙ sym n
    ]
  ]

  choose_here :
      (key k k' val v : Str) (o : Option Str)
      → same key k ≡ true
      → (if same key k' then some v else o)
        ≡ (if same k k' then some v else (if same key k' then some val else o))
  choose_here key k k' val v o e = elim (Bool-cases (same k k')) [
    | inl y ↦ rw (same_trans key k k' e, y) refl
    | inr n ↦ rw (same_trans key k k' e, n) refl
  ]

  choose_later :
      (key k k' val v : Str) (o : Option Str)
      → same key k ≡ false
      → (if same key k' then some val else (if same k k' then some v else o))
        ≡ (if same k k' then some v else (if same key k' then some val else o))
  choose_later key k k' val v o n = elim (Bool-cases (same k k')) [
    | inl y ↦
        let z : same key k' ≡ false =
          same_sym key k' ∙ sym (same_trans k k' key y) ∙ same_sym k key ∙ n in
        rw (z, y) refl
    | inr w ↦ rw w refl
  ]

  -- The value of the key that was set is the new one, in whatever case the key is given; the values
  -- of the other keys are as before.
  pub get-insert :
      (h : Headers) (k v k' : Str)
      → get same (insert same h k v).1 k' ≡ (if same k k' then some v else get same h k')
  unfolding get insert
  get-insert [] k v k' = refl
  get-insert ((key, val) ∷ h) k v k' = elim (Bool-cases (same key k)) [
    | inl e ↦ rw e (choose_here key k k' val v (get same h k') e)
    | inr n ↦ rw (n, get-insert h k v k') (choose_later key k k' val v (get same h k') n)
  ]

  -- The old value is what `get` gave.
  pub insert_old : (h : Headers) (k v : Str) → (insert same h k v).0 ≡ get same h k
  unfolding get insert
  insert_old [] k v = refl
  insert_old ((key, val) ∷ h) k v = elim (Bool-cases (same key k)) [
    | inl e ↦ rw e refl
    | inr n ↦ rw n (insert_old h k v)
  ]
