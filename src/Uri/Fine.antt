-- ===== src/Uri/Fine.antt =====
-- Of the parts of `Uri::try_from`: which give errors, and which never do.
use http_req.Prelude.{
  ◌-◌, ◌≡◌, Bool, true, false, ◌&&◌, Option, none, some, Bool-cases, inl, inr, if◌then◌else◌,
}
use http_req.Text.{Str, str, contains, get_range}
use http_req.Error.{uri_err, Error, parse, Outcome, ok, err, panic, ◌>>=◌, unwrap}
use http_req.Uri.{RangeC, index, get_chunks}
use http_req.Uri.Parse.{Parts, take_back_slash, split_path}

module _ {A : Type 0} where
  -- An error is `UriErr`, and comes exactly if this is said.
  abbrev pub Fails : Outcome Error A → Bool → Type 0
  Fails (ok a) b = b ≡ false
  Fails (err e) b = (b ≡ true) × (e ≡ parse uri_err)
  Fails panic b = Unit

  pub Fine : Outcome Error A → Type 0
  Fine (ok a) = Unit
  Fine (err e) = ⊥
  Fine panic = Unit

  Fine-Fails : (o : Outcome Error A) (b : Bool) → Fine o → b ≡ false → Fails o b
  unfolding Fine
  Fine-Fails (ok a) b l h = h
  Fine-Fails (err e) b l h = absurd l
  Fine-Fails panic b l h = tt

module _ {A B : Type 0} where
  pub Fails-bind :
      (m : Outcome Error A) (f : A → Outcome Error B) (b : Bool)
      → Fails m b
      → ((a : A) → Fine (f a))
      → Fails (m >>= f) b
  Fails-bind (ok a) f b h k = Fine-Fails (f a) b (k a) h
  Fails-bind (err e) f b h k = h
  Fails-bind panic f b h k = tt

  pub Fine-bind :
      (m : Outcome Error A) (f : A → Outcome Error B)
      → Fine m
      → ((a : A) → Fine (f a))
      → Fine (m >>= f)
  unfolding Fine
  Fine-bind (ok a) f h k = k a
  Fine-bind (err e) f h k = absurd h
  Fine-bind panic f h k = tt

pub Fine-ok : {A : Type 0} (a : A) → Fine (ok a)
unfolding Fine
Fine-ok a = tt

Fine-unwrap : {A : Type 0} (o : Option A) → Fine (unwrap o)
unfolding Fine
Fine-unwrap none = tt
Fine-unwrap (some a) = tt

module _ (s : Str) where
  get_chunks-Fine : (o : Option RangeC) (sep : Str) → Fine (get_chunks s o sep)
  unfolding get_chunks
  get_chunks-Fine none sep = Fine-ok _
  get_chunks-Fine (some r) sep =
      Fine-bind (unwrap (index s r)) _ (Fine-unwrap (index s r)) λ x. Fine-ok _

  pub take_back_slash-Fine : (o : Option RangeC) → Fine (take_back_slash s o)
  unfolding take_back_slash
  take_back_slash-Fine none = Fine-ok _
  take_back_slash-Fine (some u) =
      Fine-bind (unwrap (get_range s (u.start - 1) u.start)) _
        (Fine-unwrap (get_range s (u.start - 1) u.start)) λ x. Fine-ok _

  pub split_path-Fine : (o : Option RangeC) → Fine (split_path s o)
  unfolding split_path
  split_path-Fine none = Fine-ok _
  split_path-Fine (some u) =
      Fine-bind (unwrap (index s u)) _ (Fine-unwrap (index s u)) λ x. pieces x
    where
      pieces :
          (x : Str)
          → Fine {A = Parts} (
              if contains x (str "?") && contains x (str "#")
              then (get_chunks s (some u) (str "?") >>= λ p.
                  get_chunks s p.1 (str "#") >>= λ q. ok (p.0, q.0, q.1))
              else if contains x (str "?")
              then (get_chunks s (some u) (str "?") >>= λ p. ok (p.0, p.1, none))
              else if contains x (str "#")
              then (get_chunks s (some u) (str "#") >>= λ p. ok (p.0, none, p.1))
              else ok (some u, none, none))
      pieces x = elim (Bool-cases (contains x (str "?"))) [
        | inl q ↦ elim (Bool-cases (contains x (str "#"))) [
          | inl f ↦
              rw (q, f)
                (Fine-bind (get_chunks s (some u) (str "?")) _ (get_chunks-Fine (some u) (str "?"))
                  λ p.
                    Fine-bind (get_chunks s p.1 (str "#")) _ (get_chunks-Fine p.1 (str "#"))
                      λ w. Fine-ok _)
          | inr f ↦
              rw (q, f)
                (Fine-bind (get_chunks s (some u) (str "?")) _ (get_chunks-Fine (some u) (str "?"))
                  λ p. Fine-ok _)
        ]
        | inr q ↦ elim (Bool-cases (contains x (str "#"))) [
          | inl f ↦
              rw (q, f)
                (Fine-bind (get_chunks s (some u) (str "#")) _ (get_chunks-Fine (some u) (str "#"))
                  λ p. Fine-ok _)
          | inr f ↦ rw (q, f) (Fine-ok _)
        ]
      ]
