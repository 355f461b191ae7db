-- ===== src/Reader/Laws.antt =====
-- The buffered reader on a source without faults meets the laws of `ReaderLaws`.
use http_req.Prelude.{
  ℕ, ◌+◌, ◌≡◌, refl, [], leb, length, arith, Bool-cases, inl, inr, take-nil, drop-nil,
}
use http_req.Text.{Str}
use http_req.Error.{ok}
use http_req.Reader.{ReaderLaws}
use http_req.Reader.Buffered.{
  source_read, capacity, BufReader, fill_buf_in, consume, read_in, read, read_exact, read_until,
  size, buffered,
}
use http_req.Reader.Fill.{Yields, Yields-nil}
use http_req.Reader.Exact.{read_exact_from_lem, read_lem}
use http_req.Reader.Until.{read_until_from_end, read_until_from_lem}

read_end : (k : ℕ) (r : BufReader) → Yields r [] → read k r ≡ (ok [], r)
unfolding read read_in fill_buf_in source_read consume
read_end k r y = rw (Yields-nil r y) (elim (Bool-cases (leb capacity k)) [
  | inl t ↦ rw t refl
  | inr t ↦ rw (t, take-nil {A = ℕ} k, drop-nil {A = ℕ} k) refl
])

pub buffered_laws : ReaderLaws buffered
buffered_laws = record {
  Yields = Yields;
  read_some = λ k r s y p h.
      let (out, rest, r', q, d) = read_lem k r s y p h in
      (out, rest, r', q, d.cut, d.some_out, d.fits, d.yields);
  read_end = read_end;
  read_exact_lem = λ k r s t y e.
      unfold read_exact in
      read_exact_from_lem (k + length r.inner + 1) k [] r s t (omega arith) y e;
  read_until_lem = λ c r s t y l.
      unfold read_until in
      read_until_from_lem c (length r.buffer + size r.inner + 2) [] r s t (omega arith) y l;
  read_until_end = λ c r s y l.
      unfold read_until in
      read_until_from_end c (length r.buffer + size r.inner + 2) [] r s (omega arith) y l;
}

pub buffered-Yields : (r : BufReader) (s : Str) → Yields r s → buffered_laws.Yields r s
unfolding buffered_laws
buffered-Yields r s y = y
