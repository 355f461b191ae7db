-- ===== src/Reader.antt =====
-- `std::io::BufReader` over any reader: what src/chunked.rs and src/stream.rs use of it, as an
-- interface with its laws on a stream without faults, and the buffered reader that fills it.
pub mod Buffered
pub mod Fill
pub mod Exact
pub mod Until
pub mod Laws
use http_req.Prelude.{ℕ, suc, ◌≤◌, ◌<◌, ◌≡◌, ◌≢◌, ◌++◌, [], ◌∷◌, length, take, drop}
use http_req.Text.{Str}
use http_req.Text.Search.{Lacks}
use http_req.Error.{IoError, Outcome, ok, err}

pub record Reader : Type 1 where
  pub Rd : Type 0
  -- `buffer()`: what has been read ahead.
  pub buffer : Rd → Str
  -- `read` into a slice of this length.
  pub read : ℕ → Rd → Outcome IoError Str × Rd
  pub read_exact : ℕ → Rd → Outcome IoError Str × Rd
  pub read_until : ℕ → Rd → Outcome IoError Str × Rd
  -- What `read_until` has put into its vector where it fails.
  pub until_part : ℕ → Rd → Str
  pub fill_buf : Rd → Outcome IoError Str × Rd
  pub consume : ℕ → Rd → Rd

module _ (R : Reader) where
  open R use {Rd, read, read_exact, read_until}

  -- `Yields r s`: no read of `r` fails, and its bytes up to the end are `s`.
  pub record ReaderLaws : Type 1 where
    pub Yields : Rd → Str → Type 0
    pub read_some :
        (k : ℕ) (r : Rd) (s : Str)
        → Yields r s
        → 0 < k
        → s ≢ []
        → (out rest : Str) × (r' : Rd) × (read k r ≡ (ok out, r'))
          × (s ≡ out ++ rest)
          × (out ≢ [])
          × (length out ≤ k)
          × Yields r' rest
    pub read_end : (k : ℕ) (r : Rd) → Yields r [] → read k r ≡ (ok [], r)
    pub read_exact_lem :
        (k : ℕ) (r : Rd) (s t : Str)
        → Yields r (s ++ t)
        → length s ≡ k
        → (r' : Rd) × (read_exact k r ≡ (ok s, r')) × Yields r' t
    pub read_until_lem :
        (c : ℕ) (r : Rd) (s t : Str)
        → Yields r (s ++ (c ∷ t))
        → Lacks c s
        → (r' : Rd) × (read_until c r ≡ (ok (s ++ c ∷ []), r')) × Yields r' t
    pub read_until_end :
        (c : ℕ) (r : Rd) (s : Str)
        → Yields r s
        → Lacks c s
        → (r' : Rd) × (read_until c r ≡ (ok s, r')) × Yields r' []
