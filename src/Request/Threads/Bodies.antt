-- ===== src/Request/Threads/Bodies.antt =====
-- The body of a response on the stream, as `send_all` reads it.
use http_req.Prelude.{
  ℕ, ◌+◌, ◌*◌, ◌≤◌, ◌<◌, ◌≡◌, ◌≢◌, refl, [], ◌∷◌, ◌++◌, length, arith, ne-nil, inl, inr, ◌⊎◌,
}
use http_req.Text.{Str}
use http_req.Error.{ok}
use http_req.Reader.{Reader, ReaderLaws}
use http_req.Chunked.{ChunkReader, returns}
use http_req.Chunked as Chunked
use http_req.Chunked.States.{Pending, Pending_le}
use http_req.Chunked.Decode.{read-Reads}
use http_req.Stream.Send.{buf_size}
use http_req.Request.Threads.{Body, plain, decoded, Got, gives, body_read}

module _ (R : Reader) (L : ReaderLaws R) where
  -- The bytes that the reads will give.
  abbrev pub Holds : Body R → Str → Type 0
  Holds (plain r) l = L.Yields r l
  Holds (decoded c) l = (w : ℕ) × Pending R L buf_size c l w

  -- What a read does: it gives the next bytes, or the end.
  pub data Comes (l : Str) (g : Got R) : Type 0 where
    more :
        (c : ℕ) (d m : Str) (b : Body R)
        → g ≡ gives (ok (c ∷ d)) b
        → l ≡ (c ∷ d) ++ m
        → Holds b m
        → Comes l g
    over : (b : Body R) → g ≡ gives (ok []) b → l ≡ [] → Comes l g

  plain-Comes :
      (r r' : R.Rd) (c : ℕ) (s out m : Str)
      → R.read buf_size r ≡ (ok out, r')
      → c ∷ s ≡ out ++ m
      → out ≢ []
      → L.Yields r' m
      → (fuel : ℕ) → Comes (c ∷ s) (body_read R fuel (plain r))
  unfolding body_read
  plain-Comes r r' c s [] m q cut ne y fuel = absurd (ne refl)
  plain-Comes r r' c s (a ∷ out) m q cut ne y fuel = more a out m (plain r') (rw q refl) cut y

  decoded-Comes :
      (fuel : ℕ) (c c' : ChunkReader R) (l out m : Str) (w : ℕ)
      → Chunked.read R fuel buf_size c ≡ returns (ok out) c'
      → l ≡ out ++ m
      → Pending R L buf_size c' m w
      → (0 < length out) ⊎ ((buf_size ≡ 0) ⊎ (l ≡ []))
      → Comes l (body_read R fuel (decoded c))
  unfolding body_read
  decoded-Comes fuel c c' l [] m w q cut pending (inl h) = absurd (omega arith)
  decoded-Comes fuel c c' l [] m w q cut pending (inr (inl h)) = absurd (omega arith)
  decoded-Comes fuel c c' l [] m w q cut pending (inr (inr h)) = over (decoded c') (rw q refl) h
  decoded-Comes fuel c c' l (a ∷ out) m w q cut pending h =
      more a out m (decoded c') (rw q refl) cut (w, pending)

  pub body_read_lem :
      (fuel : ℕ) (b : Body R) (l : Str)
      → 2 * length l + 1 < fuel
      → Holds b l
      → Comes l (body_read R fuel b)
  unfolding body_read
  body_read_lem fuel (plain r) [] h y = over (plain r) (rw (L.read_end buf_size r y) refl) refl
  body_read_lem fuel (plain r) (c ∷ s) h y =
      let (out, m, r', q, cut, ne, fits, y') =
        L.read_some buf_size r (c ∷ s) y (omega arith) (ne-nil (c ∷ s) (omega arith)) in
      plain-Comes r r' c s out m q cut ne y' fuel
  body_read_lem fuel (decoded c) l h (w, pending) =
      let w_le : w ≤ 1 = Pending_le R L buf_size c l w pending in
      let g = read-Reads R L buf_size fuel c l w (omega arith) pending in
      decoded-Comes fuel c g.state l g.out g.rest g.wait g.is_result g.cut g.pending g.progress
