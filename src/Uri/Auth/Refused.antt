-- ===== src/Uri/Auth/Refused.antt =====
-- Which texts `Authority::try_from` refuses.
use http_req.Prelude.{
  ℕ, suc, ◌+◌, ◌-◌, ◌≤◌, ◌<◌, ◌≡◌, refl, sym, ap, ◌∙◌, Bool, true, false, ◌||◌, ◌&&◌, not, Option,
  none, some, [], ◌∷◌, arith, length, take, drop, drop-take, drop-drop, length-drop, Bool-cases,
  Option-cases, inl, inr, ◌==◌, if◌then◌else◌, take-all, drop-all,
}
use http_req.Text.{Str, str, find, contains}
use http_req.Text.Number.{parse_uint, u16_bound}
use http_req.Text.Slices.{IsText}
use http_req.Text.Utf8.{utf8_error, utf8_error-IsText}
use http_req.Error.{ParseErr, uri_err, Outcome, ok, err, panic, ◌>>=◌, ok_or}
use http_req.Uri.{RangeC, range_c, get_chunks, chunks_at, non_empty, Authority}
use http_req.Uri.Auth.{split_info, split_by, parsed_ok, check_port, try_from}
use http_req.Uri.Chunks.{
  IsRange, Each, text_at, index-IsRange, chunks_at-IsSplit, get_chunks_lem, match_at,
}
use http_req.Uri.Valid.{length-text_at}
use http_req.Uri.Auth.Valid.{IsSplit-AreRanges, whole-IsRange, split_by-IsAscii}

-- No port, or one that is a number of 16 bits.
abbrev pub is_port : Str → Bool
is_port [] = true
is_port (c ∷ p) = parsed_ok (parse_uint u16_bound (c ∷ p))

abbrev pub is_nothing : Str → Bool
is_nothing [] = true
is_nothing (c ∷ x) = false

-- Of the text behind the user: the place of the separator, `len` bytes long, whose last byte is not
-- the host's.
abbrev pub refused_at : ℕ → Str → Option ℕ → Bool
refused_at len x none = is_nothing x
refused_at len x (some i) = i + len == 1 || not (is_port (drop (i + len) x))

abbrev pub behind_user : Str → Option ℕ → Str
behind_user s none = s
behind_user s (some i) = drop (suc i) s

-- What stands in front of the port: with brackets anywhere in the text it is "]:".
abbrev pub separator : Str → Str
separator s = if contains s (str "[") && contains s (str "]") then b']' ∷ b':' ∷ [] else b':' ∷ []

-- There is no host, or behind the separator something that is no number of 16 bits.
abbrev pub refused : Str → Bool
refused s =
    let x : Str = behind_user s (find s (str "@")) in
    refused_at (length (separator s)) x (find x (separator s))

split_by-eq-separator : (s : Str) → split_by s ≡ separator s
unfolding split_by
split_by-eq-separator s = refl

-- A result is an error exactly if this is said, and then `UriErr`; it is never a panic.
abbrev pub Decides : {A : Type 0} → Outcome ParseErr A → Bool → Type 0
Decides (ok a) b = b ≡ false
Decides (err e) b = (e ≡ uri_err) × (b ≡ true)
Decides panic b = ⊥

module _ (s : Str) where
  some_port :
      (r : RangeC) (y : Str)
      → text_at s r ≡ y
      → 0 < length y
      → IsRange s r
      → check_port s (some r) ≡ (if is_port y then ok tt else err uri_err)
  unfolding check_port
  some_port r [] e h v = absurd (omega arith)
  some_port r (c ∷ y) e h v = rw (index-IsRange s r v, e) refl

  no_port : (y : Str) → length y ≡ 0 → is_port y ≡ true
  no_port [] h = refl
  no_port (c ∷ y) h = absurd (omega arith)

  check_port-is_port :
      (r : RangeC) (y : Str)
      → r.start ≤ r.end
      → Each (IsRange s) (non_empty r)
      → text_at s r ≡ y
      → length y ≡ r.end - r.start
      → check_port s (non_empty r) ≡ (if is_port y then ok tt else err uri_err)
  unfolding check_port
  check_port-is_port r y l v e k = elim (Bool-cases (r.start == r.end)) [
    | inl h ↦ let z : length y ≡ 0 = ground arith in rw (h, no_port y z) refl
    | inr h ↦ let z : 0 < length y = ground arith in rw h (some_port r y e z (rw h at v))
  ]

  module _ (t : IsText s) where
    -- Behind the user, which stays what it is.
    behind : Option RangeC → Option RangeC → Option RangeC → Outcome ParseErr Authority
    behind u p o = get_chunks s o (split_by s) >>= λ q. ok_or q.0 uri_err >>= λ h.
        check_port s q.1 >>= λ _.
        ok (record { inner = s; username = u; password = p; host = h; port = q.1 })

    -- The port's range.
    ports :
        (r : RangeC) (v : IsRange s r) (x : Str) (i : ℕ)
        → text_at s r ≡ x
        → find x (split_by s) ≡ some i
        → check_port s (non_empty (range_c (r.start + i + length (split_by s)) r.end))
          ≡ (if is_port (drop (i + length (split_by s)) x) then ok tt else err uri_err)
    unfolding chunks_at
    ports r v x i e h =
        let len : ℕ = length (split_by s) in
        let mid : ℕ = r.start + i + len in
        let found : find (text_at s r) (split_by s) ≡ some i =
          ap (λ y. find y (split_by s)) e ∙ h in
        let positive : 0 < len = (split_by-IsAscii s t).1 in
        let fits : len ≤ r.end - r.start - i = (match_at s r (split_by s) found).1 in
        let split =
          chunks_at-IsSplit s t r v (split_by s) (split_by-IsAscii s t).0 positive (some i) found in
        let long : length x ≡ r.end - r.start = ap length (sym e) ∙ length-text_at s r v in
        let place : r.start + (i + len) ≡ mid = omega arith in
        let rest : r.end - r.start - (i + len) ≡ r.end - mid = omega arith in
        let text : text_at s (range_c mid r.end) ≡ drop (i + len) x = sym (
          ap (drop (i + len)) (sym e)
          ∙ drop-take (i + len) (r.end - r.start) (drop r.start s)
          ∙ ap (take (r.end - r.start - (i + len))) (drop-drop (i + len) r.start s)
          ∙ ap (λ k. take (r.end - r.start - (i + len)) (drop k s)) place
          ∙ ap (λ k. take k (drop mid s)) rest) in
        check_port-is_port (range_c mid r.end) (drop (i + len) x) (omega arith)
          (IsSplit-AreRanges s r _ _ split).1 text (length-drop (i + len) x ∙ omega (arith, long))

    at_place :
        (u p : Option RangeC) (r : RangeC) (v : IsRange s r) (x : Str) (o : Option ℕ)
        → text_at s r ≡ x
        → find x (split_by s) ≡ o
        → Decides (behind u p (some r)) (refused_at (length (split_by s)) x o)
    unfolding behind get_chunks chunks_at check_port
    at_place u p r v [] none e h = rw (index-IsRange s r v, e, h) (refl, refl)
    at_place u p r v (c ∷ x) none e h = rw (index-IsRange s r v, e, h) refl
    at_place u p r v x (some i) e h =
        let len : ℕ = length (split_by s) in
        let positive : 0 < len = (split_by-IsAscii s t).1 in
        let port = ports r v x i e h in
        rw (index-IsRange s r v, e, h)
          (elim (Bool-cases (i + len == 1)) [
            | inl z ↦
                let host : (r.start == r.start + i + len - 1) ≡ true = ground arith in
                rw (host, z) (refl, refl)
            | inr z ↦
                let host : (r.start == r.start + i + len - 1) ≡ false = ground arith in
                rw (host, z, port)
                  (elim (Bool-cases (is_port (drop (i + len) x))) [
                    | inl k ↦ rw k refl
                    | inr k ↦ rw k (refl, refl)
                  ])
          ])

    -- The range behind the user.
    abbrev Rest : Option RangeC → Str → Type 0
    Rest none x = x ≡ []
    Rest (some r) x = IsRange s r × (text_at s r ≡ x)

    unfound : find [] (split_by s) ≡ none
    unfolding split_by find
    unfound = elim (Bool-cases (contains s (str "[") && contains s (str "]"))) [
      | inl e ↦ rw e refl
      | inr e ↦ rw e refl
    ]

    at-Rest :
        (u p o : Option RangeC) (x : Str)
        → Rest o x
        → Decides (behind u p o) (refused_at (length (split_by s)) x (find x (split_by s)))
    unfolding behind get_chunks
    at-Rest u p none x h = rw (h, unfound) (refl, refl)
    at-Rest u p (some r) x (v, e) = at_place u p r v x (find x (split_by s)) e refl

    user_lem :
        (info : Option RangeC)
        → Each (IsRange s) info
        → (q : Option RangeC × Option RangeC) × (get_chunks {E = ParseErr} s info (str ":") ≡ ok q)
    unfolding get_chunks
    user_lem none h = ((none, none), refl)
    user_lem (some r) v =
        let (q, e, w) =
          get_chunks_lem s t r v (str ":") (omega arith) (omega arith) {E = ParseErr} in
        (q, e)

    behind-Rest :
        (i : ℕ)
        → Each (IsRange s) (non_empty (range_c (0 + i + 1) (length s)))
        → Rest (non_empty (range_c (0 + i + 1) (length s))) (drop (suc i) s)
    behind-Rest i v = elim (Bool-cases (0 + i + 1 == length s)) [
      | inl h ↦ rw h (drop-all s (suc i) (ground arith))
      | inr h ↦
          let mid : 0 + i + 1 ≡ suc i = omega arith in
          rw h (
            rw h at v,
            ap (λ k. take (length s - (0 + i + 1)) (drop k s)) mid
                ∙ take-all (drop (suc i) s) (length s - (0 + i + 1))
                    (omega (arith, length-drop (suc i) s)),
          )
    ]

    split_info_lem :
        (u p o : Option RangeC) × (split_info s ≡ ok (u, p, o))
        × Rest o (behind_user s (find s (str "@")))
    unfolding split_info contains get_chunks chunks_at
    split_info_lem = elim (Option-cases (find s (str "@"))) [
      | inl e ↦ rw e (
        none,
        none,
        some (range_c 0 (length s)),
        refl,
        (whole-IsRange s, take-all s (length s - 0) (omega arith)),
      )
      | inr (i, e) ↦
          let text : text_at s (range_c 0 (length s)) ≡ s =
            take-all s (length s - 0) (omega arith) in
          let split =
            chunks_at-IsSplit s t (range_c 0 (length s)) (whole-IsRange s) (str "@") (omega arith)
              (omega arith) (some i) (ap (λ y. find y (str "@")) text ∙ e) in
          let (front, rest) = IsSplit-AreRanges s (range_c 0 (length s)) _ _ split in
          let (q, z) = user_lem _ front in
          rw e (
            q.0,
            q.1,
            non_empty (range_c (0 + i + 1) (length s)),
            rw (index-IsRange s (range_c 0 (length s)) (whole-IsRange s), text, e) (rw z refl),
            behind-Rest i rest,
          )
    ]

  pub try_from-Decides : IsText s → Decides (try_from s) (refused s)
  unfolding try_from get_chunks behind
  try_from-Decides t =
      let (u, p, o, e, h) = split_info_lem t in
      rw (e, ← split_by-eq-separator s) (at-Rest t u p o (behind_user s (find s (str "@"))) h)

-- On UTF-8 text `Authority::try_from` never panics. Behind the first `@`, or in the whole text if
-- there is none, the host ends and the port begins at the first `:`, or, if `[` and `]` stand
-- anywhere in the text, the user included, at the first "]:", whose bracket is the host's. It fails exactly if there is no host, or
-- if something stands behind that place that is no number below 2^16, and then with `UriErr`.
pub try_from-refused : (s : Str) → utf8_error s ≡ none → Decides (try_from s) (refused s)
try_from-refused s w = try_from-Decides s (utf8_error-IsText s w).0
