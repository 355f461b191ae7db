-- ===== src/Chunked/Stream.antt =====
-- Streams in the chunked transfer encoding, as `ChunkReader` reads them.
use http_req.Prelude.{
  ℕ, ◌+◌, ◌≤◌, ◌<◌, ◌≡◌, ◌≢◌, refl, ap, ◌∙◌, false, some, List, [], ◌∷◌, ◌++◌, ◌==◌, length, arith,
  append_assoc, length-append,
}
use http_req.Text.{Str}
use http_req.Text.Search.{Lacks, Lacks-append}
use http_req.Error.{ok}
use http_req.Chunked.{usize_bound}
use http_req.Chunked.Hex.{base_16, parse_hex_uint_iff}
use http_req.Chunked.Line.{
  max_line_length, is_ascii_space, parse_hex_uint, trim_trailing_whitespace, remove_chunk_extension,
}
use http_req.Chunked.Trim.{
  EndsDark, EndsDark-append, trim_trailing_whitespace_lem, remove_chunk_extension_lem,
  remove_chunk_extension-same,
}

-- A line, without its newline, that announces a chunk of `n` bytes.
pub record Announces (line : Str) (n : ℕ) : Type 0 where
  pub one_line : Lacks b'\n' line
  pub short : length line < max_line_length
  pub size :
      parse_hex_uint (remove_chunk_extension (trim_trailing_whitespace (line ++ b'\n' ∷ []))) ≡ ok n

-- The chunks of a stream; behind the line of the last one anything may follow, and a stream that
-- ends in front of a chunk counts as one without more chunks. `len` is the size of the buffer that
-- the stream is read into.
pub data Encoded (len : ℕ) : List Str → Str → Type 0 where
  last :
      {s : Str} (line rest : Str) → Announces line 0 → s ≡ line ++ (b'\n' ∷ rest) → Encoded len [] s
  stops : {s : Str} → s ≡ [] → Encoded len [] s
  chunk :
      {d : Str} {ds : List Str} {s : Str} (line t : Str)
      → Announces line (length d)
      → d ≢ []
      → length d + len < usize_bound
      → Encoded len ds t
      → s ≡ line ++ (b'\n' ∷ (d ++ (b'\r' ∷ b'\n' ∷ t)))
      → Encoded len (d ∷ ds) s

abbrev pub payload : List Str → Str
payload [] = []
payload (d ∷ ds) = d ++ payload ds

-- Bytes that may stand in a size: no white space, no `;`.
abbrev pub ArePlain : Str → Type 0
ArePlain [] = Unit
ArePlain (c ∷ s) = (is_ascii_space c ≡ false) × ((c == b';') ≡ false) × ArePlain s

ArePlain-EndsDark : (s : Str) → ArePlain s → EndsDark s
ArePlain-EndsDark [] h = tt
ArePlain-EndsDark (c ∷ []) h = h.0
ArePlain-EndsDark (c ∷ d ∷ s) h = ArePlain-EndsDark (d ∷ s) h.2

ArePlain-Lacks : (s : Str) → ArePlain s → Lacks b'\n' s × Lacks b';' s
unfolding is_ascii_space
ArePlain-Lacks [] h = (tt, tt)
ArePlain-Lacks (c ∷ s) h = let (l, k) = ArePlain-Lacks s h.2 in ((ground arith, l), (h.1, k))

-- Digits and CR.
pub Announces-plain :
    (digits : Str) {n : ℕ}
    → ArePlain digits
    → length digits ≤ 16
    → base_16 0 digits ≡ some n
    → Announces (digits ++ b'\r' ∷ []) n
unfolding is_ascii_space
Announces-plain digits {n} p l v =
    let (line, semi) = ArePlain-Lacks digits p in
    let trimmed : trim_trailing_whitespace ((digits ++ b'\r' ∷ []) ++ b'\n' ∷ []) ≡ digits =
      ap trim_trailing_whitespace (append_assoc digits (b'\r' ∷ []) (b'\n' ∷ []))
      ∙ trim_trailing_whitespace_lem digits (b'\r' ∷ []) b'\n' (ArePlain-EndsDark digits p)
          (refl, tt) in
    record {
      one_line = Lacks-append b'\n' digits (b'\r' ∷ []) line (refl, tt);
      short = omega (arith, length-append digits (b'\r' ∷ []));
      size =
          rw (trimmed, remove_chunk_extension-same digits semi)
            ((parse_hex_uint_iff digits n).1 (l, v));
    }

-- Digits, an extension and CR.
pub Announces-extended :
    (digits ext : Str) {n : ℕ}
    → ArePlain digits
    → length digits ≤ 16
    → base_16 0 digits ≡ some n
    → Lacks b'\n' ext
    → EndsDark (b';' ∷ ext)
    → length ext < 4000
    → Announces (digits ++ ((b';' ∷ ext) ++ b'\r' ∷ [])) n
unfolding is_ascii_space
Announces-extended digits ext {n} p l v one dark short =
    let (line, semi) = ArePlain-Lacks digits p in
    let e : Str = b';' ∷ ext in
    let trimmed : trim_trailing_whitespace ((digits ++ (e ++ b'\r' ∷ [])) ++ b'\n' ∷ [])
        ≡ digits ++ e =
      ap trim_trailing_whitespace (simp append_assoc)
      ∙ trim_trailing_whitespace_lem (digits ++ e) (b'\r' ∷ []) b'\n'
          (EndsDark-append digits b';' ext dark) (refl, tt) in
    record {
      one_line =
          Lacks-append b'\n' digits (e ++ b'\r' ∷ []) line
            (Lacks-append b'\n' e (b'\r' ∷ []) (refl, one) (refl, tt));
      short = omega (arith, length-append digits (e ++ b'\r' ∷ []), length-append e (b'\r' ∷ []));
      size =
          rw (trimmed, remove_chunk_extension_lem digits ext semi)
            ((parse_hex_uint_iff digits n).1 (l, v));
    }
