-- ===== src/Uri/Auth/Bracketed.antt =====
-- The host in brackets, and the port behind it, of an authority in src/uri.rs.
use http_req.Prelude.{
  ℕ, suc, ◌+◌, ◌-◌, ◌≡◌, refl, ap, ◌∙◌, subst, Option, none, some, [], ◌∷◌, ◌++◌, length, arith,
  append-nil, append_assoc, length-append, pos-length,
}
use http_req.Text.{Str, str, find, starts_with}
use http_req.Text.Number.{decimal}
use http_req.Text.Number.Laws.{decimal-AreDigits, decimal-ne-nil, AreDigits-starts_char}
use http_req.Text.Search.{Lacks}
use http_req.Error.{ok}
use http_req.Uri.{RangeC, range_c, get_chunks, chunks_at, non_empty}
use http_req.Uri.Auth.{check_port, port_in}
use http_req.Uri.Spans.{Span, Span-front, Span-back, index-Span, non_empty-some}
use http_req.Uri.Auth.Written.{port_text, IsPort, Ports, digits_lem}

find_end : (x e : Str) → Lacks b']' x → find (x ++ (b']' ∷ b':' ∷ e)) (str "]:") ≡ some (length x)
unfolding find starts_with
find_end [] e h = refl
find_end (a ∷ x) e h = ground (arith, find_end x e h.1)

find_no_end : (x : Str) → Lacks b']' x → find (x ++ b']' ∷ []) (str "]:") ≡ none
unfolding find starts_with
find_no_end [] h = refl
find_no_end (a ∷ x) h = ground (arith, find_no_end x h.1)

module _ (s : Str) (hr : RangeC) (x : Str) (l : Lacks b']' x) where
  abbrev inside : Str
  inside = b'[' ∷ x

  abbrev host : Str
  host = b'[' ∷ (x ++ b']' ∷ [])

  pub bracket_lem :
      (n : Option ℕ) → IsPort n → Span s hr (host ++ port_text n) → Ports s (str "]:") hr host n
  unfolding get_chunks chunks_at check_port port_in
  bracket_lem none t p =
      let q : Span s hr host = subst (Span s hr) (append-nil host) p in
      (
        hr,
        none,
        rw (index-Span s hr host q) (rw (find_no_end inside (refl, l)) refl),
        q,
        refl,
        refl,
      )
  bracket_lem (some n) t p =
      let d : Str = decimal n in
      let text : host ++ (b':' ∷ d) ≡ inside ++ (b']' ∷ b':' ∷ d) = simp append_assoc in
      let q : Span s hr (inside ++ (b']' ∷ b':' ∷ d)) = subst (Span s hr) text p in
      let found : find (inside ++ (b']' ∷ b':' ∷ d)) (str "]:") ≡ some (suc (length x)) =
        find_end inside d (refl, l) in
      let front : RangeC = range_c hr.start (hr.start + length host) in
      let back : RangeC = range_c (hr.start + length host + 1) hr.end in
      let size : length host ≡ suc (length x + 1) = ap suc (length-append x (b']' ∷ [])) in
      let end_at : hr.start + suc (length x) + 2 - 1 ≡ hr.start + length host = omega arith in
      let mid : hr.start + suc (length x) + 2 ≡ hr.start + length host + 1 = omega arith in
      let all : hr.end ≡ hr.start + (length host + suc (length d)) =
        omega (arith, p.start_at, p.end_at, length-append host (b':' ∷ d)) in
      let here : non_empty front ≡ some front = non_empty-some front (omega arith) in
      let there : non_empty back ≡ some back =
        non_empty-some back (omega (arith, pos-length d (decimal-ne-nil n))) in
      let digits : Span s back d =
        Span-back (b':' ∷ []) d (AreDigits-starts_char d (decimal-AreDigits n))
          (Span-back host (b':' ∷ d) refl p) in
      let (checked, is_port) = digits_lem s back n t digits in
      (
        front,
        some back,
        rw (index-Span s hr (inside ++ (b']' ∷ b':' ∷ d)) q) (
            rw found (
              ap
                (λ k. ok (
                  non_empty (range_c hr.start k),
                  non_empty (range_c (hr.start + suc (length x) + 2) hr.end),
                ))
                end_at
              ∙ ap (λ k. ok (non_empty front, non_empty (range_c k hr.end))) mid
              ∙ ap (λ z. ok (z, non_empty back)) here
              ∙ ap (λ z. ok (some front, z)) there)),
        Span-front host (b':' ∷ d) refl p,
        checked,
        is_port,
      )
