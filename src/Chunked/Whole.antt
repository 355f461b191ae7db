-- ===== src/Chunked/Whole.antt =====
-- A stream in the chunked encoding, read by `ChunkReader` until a read gives nothing: the loop that
-- `Read::read_to_end` and `ThreadSend::send_all` of src/stream.rs run.
use http_req.Prelude.{
  ℕ, zero, suc, ◌+◌, ◌*◌, ◌<◌, ◌≡◌, refl, sym, ap, ◌∙◌, List, [], ◌∷◌, ◌++◌, length, arith,
  length-append,
}
use http_req.Text.{Str}
use http_req.Error.{ok, err, panic}
use http_req.Reader.{Reader, ReaderLaws}
use http_req.Chunked.{ChunkReader, ReadResult, returns, panics, out_of_fuel, read, from_reader}
use http_req.Chunked.Stream.{Encoded, payload}
use http_req.Chunked.States.{Pending, Pending_le, header}
use http_req.Chunked.Decode.{read_lem}

module _ (R : Reader) where
  abbrev prepend : Str → ReadResult R → ReadResult R
  prepend out (returns (ok s) c) = returns (ok (out ++ s)) c
  prepend out (returns (err e) c) = returns (err e) c
  prepend out (returns panic c) = panics
  prepend out panics = panics
  prepend out out_of_fuel = out_of_fuel

  abbrev after_some : (ChunkReader R → ReadResult R) → ReadResult R → ReadResult R
  after_some next (returns (ok []) c) = returns (ok []) c
  after_some next (returns (ok (b ∷ s)) c) = prepend (b ∷ s) (next c)
  after_some next (returns (err e) c) = returns (err e) c
  after_some next (returns panic c) = panics
  after_some next panics = panics
  after_some next out_of_fuel = out_of_fuel

  -- At most `reads` calls of `read`, each of at most `fuel` rounds.
  unfoldable pub read_all : ℕ → ℕ → ℕ → ChunkReader R → ReadResult R
  read_all zero fuel len c = out_of_fuel
  read_all (suc k) fuel len c = after_some (read_all k fuel len) (read R fuel len c)

  read_all_step :
      (k fuel len : ℕ) (c : ChunkReader R)
      → read_all (suc k) fuel len c ≡ after_some (read_all k fuel len) (read R fuel len c)
  unfolding read_all
  read_all_step k fuel len c = refl

module _ (R : Reader) (L : ReaderLaws R) (len fuel : ℕ) (room : 0 < len) where
  abbrev AllAt : ℕ → Type 0
  AllAt k =
      (c : ChunkReader R) (p : Str) (w : ℕ)
      → length p < k
      → 2 * length p + 1 < fuel
      → Pending R L len c p w
      → (c' : ChunkReader R) × (read_all R k fuel len c ≡ returns (ok p) c')

  after_Gives :
      (k : ℕ)
      → AllAt k
      → (c : ChunkReader R) (p : Str) → length p < suc k
      → 2 * length p + 1 < fuel
      → (out rest : Str) (state : ChunkReader R) (wait : ℕ) → p ≡ out ++ rest
      → Pending R L len state rest wait
      → (out ≡ [] → p ≡ [])
      → (c' : ChunkReader R) × (after_some R (read_all R k fuel len) (returns (ok out) state)
          ≡ returns (ok p) c')
  after_Gives k ih c p l enough [] rest state wait cut pending over =
      (state, ap (λ x. returns (ok x) state) (sym (over refl)))
  after_Gives k ih c p l enough (b ∷ out) rest state wait cut pending over =
      let size : length p ≡ suc (length out) + length rest =
        ap length cut ∙ length-append (b ∷ out) rest in
      let (c', q) = ih state rest wait (omega arith) (omega arith) pending in
      (c', rw q (ap (λ x. returns (ok x) c') (sym cut)))

  read_all_lem :
      (k : ℕ) (c : ChunkReader R) (p : Str) (w : ℕ)
      → length p < k
      → 2 * length p + 1 < fuel
      → Pending R L len c p w
      → (c' : ChunkReader R) × (read_all R k fuel len c ≡ returns (ok p) c')
  read_all_lem zero c p w l enough pending = absurd (omega arith)
  read_all_lem (suc k) c p w l enough pending =
      let g =
        read_lem R L len fuel c p w (omega (arith, Pending_le R L len c p w pending)) pending in
      let (c', q) =
        after_Gives k (read_all_lem k) c p l enough g.out g.rest g.state g.wait g.cut g.pending
          (λ e. g.goes_on refl e room) in
      (c', read_all_step R k fuel len c ∙ ap (after_some R (read_all R k fuel len)) g.is_result ∙ q)

-- A `ChunkReader` on a stream in the chunked encoding, read with any buffer that is not empty until
-- a read gives nothing, gives the chunks' data in order, without an error and without a panic. The
-- number of reads and the rounds of one read are bounded by the length of the data.
pub read_all-from_reader :
    (R : Reader) (L : ReaderLaws R) (len fuel k : ℕ) (ds : List Str) (s : Str) (r : R.Rd)
    → 0 < len
    → L.Yields r s
    → Encoded len ds s
    → length (payload ds) < k
    → 2 * length (payload ds) + 1 < fuel
    → (c : ChunkReader R) × (read_all R k fuel len (from_reader R r) ≡ returns (ok (payload ds)) c)
unfolding from_reader
read_all-from_reader R L len fuel k ds s r room y x l enough =
    read_all_lem R L len fuel room k (from_reader R r) (payload ds) 1 l enough
      (header ds s refl refl refl refl refl y x refl)
