-- ===== src/Uri/Auth/Valid.antt =====
-- `Authority::try_from` never panics, and the ranges that it gives are valid.
use http_req.Prelude.{
  ◌≤◌, ◌<◌, ◌≡◌, sym, subst, drop-all, refl, true, Option, none, some, arith, length, Bool-cases,
  inl, inr, ◌&&◌,
}
use http_req.Text.{Str, str, is_char_boundary, contains}
use http_req.Text.Number.{parse_uint, u16_bound}
use http_req.Text.Slices.{IsText, IsAscii, boundary_of_drop}
use http_req.Error.{ParseErr, uri_err, ok, ◌>>=◌, ok_or}
use http_req.Error.Laws.{Ensures, Ensures-bind}
use http_req.Uri.{RangeC, range_c, get_chunks, Authority}
use http_req.Uri.Auth.{split_info, split_by, parsed_ok, check_port, try_from}
use http_req.Uri.Chunks.{IsRange, Each, Each_map, IsSplit, text_at, index-IsRange, get_chunks_lem}

pub record IsValid (a : Authority) : Type 0 where
  pub username : Each (IsRange a.inner) a.username
  pub password : Each (IsRange a.inner) a.password
  pub host : IsRange a.inner a.host
  pub port :
      Each
        (λ p. IsRange a.inner p × (parsed_ok (parse_uint u16_bound (text_at a.inner p)) ≡ true))
        a.port
  pub info : Each (λ u. Each (λ p. u.start ≤ p.end) a.password) a.username

abbrev AreRanges : Str → Option RangeC → Option RangeC → Type 0
AreRanges s b a = Each (IsRange s) b × Each (IsRange s) a

pub IsSplit-AreRanges :
    (s : Str) (r : RangeC) (b a : Option RangeC) → IsSplit s r b a → AreRanges s b a
IsSplit-AreRanges s r b a h =
    (Each_map _ (IsRange s) (λ x k. k.0) b h.before, Each_map _ (IsRange s) (λ x k. k.0) a h.after)

pub whole-IsRange : (s : Str) → IsRange s (range_c 0 (length s))
unfolding is_char_boundary
whole-IsRange s = record {
  ordered = omega arith;
  start_at = refl;
  end_at =
      boundary_of_drop s (length s) (omega arith) (rw (drop-all s (length s) (omega arith)) refl);
}

-- What `split_info` gives: the user and the password in order, and the rest.
abbrev Info : Str → Option RangeC × Option RangeC × Option RangeC → Type 0
Info s p =
    AreRanges s p.0 p.1 × Each (λ u. Each (λ q. u.start ≤ q.end) p.1) p.0 × Each (IsRange s) p.2

module _ (s : Str) (t : IsText s) where
  pub get_chunks-Ensures :
      (E : Type 0) (o : Option RangeC) (sep : Str)
      → Each (IsRange s) o
      → IsAscii sep
      → 0 < length sep
      → Ensures {E = E} (λ p. AreRanges s p.0 p.1) (get_chunks s o sep)
  unfolding get_chunks
  get_chunks-Ensures E none sep h a p = (tt, tt)
  get_chunks-Ensures E (some r) sep h a p =
      let (q, e, v) = get_chunks_lem s t r h sep a p {E = E} in
      subst (Ensures (λ p. AreRanges s p.0 p.1)) (sym e) (IsSplit-AreRanges s r q.0 q.1 v)

  ordered_of_split :
      (r : RangeC) (b a : Option RangeC)
      → IsSplit s r b a
      → Each (λ u. Each (λ q. u.start ≤ q.end) a) b
  ordered_of_split r none a v = tt
  ordered_of_split r (some u) none v = tt
  ordered_of_split r (some u) (some q) v =
      let h = v.before in let o = h.0.ordered in let k = v.after in omega arith

  split_user :
      (info part : Option RangeC)
      → Each (IsRange s) info
      → Each (IsRange s) part
      → Ensures (Info s) (get_chunks {E = ParseErr} s info (str ":") >>= λ p. ok (p.0, p.1, part))
  unfolding get_chunks
  split_user none part h k = ((tt, tt), tt, k)
  split_user (some r) part h k =
      let (q, e, v) = get_chunks_lem s t r h (str ":") (omega arith) (omega arith) {E = ParseErr} in
      subst (λ m. Ensures (Info s) (m >>= λ p. ok (p.0, p.1, part))) (sym e)
        (IsSplit-AreRanges s r q.0 q.1 v, ordered_of_split r q.0 q.1 v, k)

  split_info-Ensures : Ensures (Info s) (split_info s)
  unfolding split_info
  split_info-Ensures = elim (Bool-cases (contains s (str "@"))) [
    | inl e ↦ rw e (
        Ensures-bind (λ p. AreRanges s p.0 p.1) (Info s) _ _
          (get_chunks-Ensures ParseErr (some (range_c 0 (length s))) (str "@") (whole-IsRange s)
            (omega arith) (omega arith))
          (λ p h. split_user p.0 p.1 h.0 h.1))
    | inr e ↦ rw e ((tt, tt), tt, whole-IsRange s)
  ]

  -- A port that passes the check is a number of 16 bits.
  check_port-Ensures :
      (o : Option RangeC)
      → Each (IsRange s) o
      → Ensures
          (λ _. Each (λ p. IsRange s p × (parsed_ok (parse_uint u16_bound (text_at s p)) ≡ true)) o)
          (check_port s o)
  unfolding check_port
  check_port-Ensures none h = tt
  check_port-Ensures (some p) h =
      rw (index-IsRange s p h) (elim (Bool-cases (parsed_ok (parse_uint u16_bound (text_at s p)))) [
        | inl e ↦ rw e (h, refl)
        | inr e ↦ rw e tt
      ])

  pub split_by-IsAscii : IsAscii (split_by s) × (0 < length (split_by s))
  unfolding split_by
  split_by-IsAscii = elim (Bool-cases (contains s (str "[") && contains s (str "]"))) [
    | inl e ↦ rw e (omega arith)
    | inr e ↦ rw e (omega arith)
  ]

  -- No panic, and on success an authority of this text with valid ranges.
  pub try_from-Ensures : Ensures (λ a. IsValid a × (a.inner ≡ s)) (try_from s)
  unfolding try_from
  try_from-Ensures = Ensures-bind (Info s) _ (split_info s) _ split_info-Ensures λ i info.
      Ensures-bind (λ p. AreRanges s p.0 p.1) _ (get_chunks s i.2 (split_by s)) _
        (get_chunks-Ensures ParseErr i.2 (split_by s) info.2 split_by-IsAscii.0 split_by-IsAscii.1)
        λ p r. with_host i info p.0 p.1 r
    where
      with_host :
          (i : Option RangeC × Option RangeC × Option RangeC)
          → Info s i
          → (h port : Option RangeC) → AreRanges s h port
          → Ensures
              (λ a. IsValid a × (a.inner ≡ s))
              (ok_or h uri_err >>= λ host_range. check_port s port >>= λ _. ok (record {
                inner = s;
                username = i.0;
                password = i.1;
                host = host_range;
                port = port;
              }))
      with_host i info none port r = tt
      with_host i info (some h) port r =
          Ensures-bind _ _ (check_port s port) _ (check_port-Ensures port r.1) λ _ q. (
            record {
              username = info.0.0;
              password = info.0.1;
              host = r.0;
              port = q;
              info = info.1;
            },
            refl,
          )
