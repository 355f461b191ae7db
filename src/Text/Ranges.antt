-- ===== src/Text/Ranges.antt =====
-- Slices at the seam of two texts.
use http_req.Prelude.{
  ◌-◌, ◌≡◌, ap, ◌∙◌, true, some, ◌++◌, length, take, arith, length-append, take-append, drop-append,
  take-all, drop-all, le→leb,
}
use http_req.Text.{Str, get_range, is_char_boundary, starts_char}
use http_req.Text.Slices.{boundary_of_drop}

pub boundary-append :
    (s t : Str) → starts_char t ≡ true → is_char_boundary (s ++ t) (length s) ≡ true
boundary-append s t h =
    boundary_of_drop (s ++ t) (length s) (omega (arith, length-append s t))
      (ap starts_char (drop-append s t) ∙ h)

pub boundary_end : (s : Str) → is_char_boundary s (length s) ≡ true
boundary_end s =
    boundary_of_drop s (length s) (omega arith)
      (ap starts_char (drop-all s (length s) (omega arith)))

pub get_range_front : (s t : Str) → starts_char t ≡ true → get_range (s ++ t) 0 (length s) ≡ some s
unfolding get_range is_char_boundary
get_range_front s t h =
    let e : length s - 0 ≡ length s = omega arith in
    rw (boundary-append s t h, le→leb 0 (length s) (omega arith))
      (ap some (ap (λ n. take n (s ++ t)) e ∙ take-append s t))

pub get_range_back :
    (s t : Str) → starts_char t ≡ true → get_range (s ++ t) (length s) (length (s ++ t)) ≡ some t
unfolding get_range
get_range_back s t h =
    rw
      (
        boundary-append s t h,
        boundary_end (s ++ t),
        le→leb (length s) (length (s ++ t)) (omega (arith, length-append s t)),
      )
      (ap some (
        ap (take (length (s ++ t) - length s)) (drop-append s t)
        ∙ take-all t (length (s ++ t) - length s) (omega (arith, length-append s t))))
