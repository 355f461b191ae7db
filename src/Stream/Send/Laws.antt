-- ===== src/Stream/Send/Laws.antt =====
-- What `send_all` Sends-all of a stream without faults.
use http_req.Prelude.{
  ℕ, zero, suc, ◌+◌, ◌≤◌, ◌<◌, ◌≡◌, ◌≢◌, refl, sym, ap, ◌∙◌, Bool, true, some, List, [], ◌∷◌, ◌++◌,
  length, arith, append_assoc, append-nil, length-append, ne-nil,
}
use http_req.Text.{Str}
use http_req.Error.{ok}
use http_req.Reader.{Reader, ReaderLaws}
use http_req.Stream.Send.{buf_size, send_all}

-- A receiver that stays: it keeps the messages.
abbrev pub keep : Str → List Str → Bool × List Str
keep d sent = (true, sent ++ d ∷ [])

abbrev pub joined : List Str → Str
joined [] = []
joined (d ∷ ds) = d ++ joined ds

-- Messages that are not empty and fit the buffer.
abbrev pub AreMessages : List Str → Type 0
AreMessages [] = Unit
AreMessages (d ∷ ds) = (d ≢ []) × (length d ≤ buf_size) × AreMessages ds

module _ (R : Reader) (L : ReaderLaws R) where
  abbrev Sends : ℕ → R.Rd → Str → List Str → Type 0
  Sends fuel r s sent =
      (r' : R.Rd) × (ds : List Str) × (send_all R keep fuel r sent ≡ some (r', sent ++ ds))
      × (joined ds ≡ s)
      × AreMessages ds
      × L.Yields r' []

  abbrev SendsAt : ℕ → Type 0
  SendsAt fuel =
      (r : R.Rd) (s : Str) (sent : List Str) → L.Yields r s → length s < fuel → Sends fuel r s sent

  Sends-suc :
      (f : ℕ)
      → SendsAt f
      → (r : R.Rd) (b : ℕ) (s : Str) (sent : List Str) → length (b ∷ s) < suc f
      → (out rest : Str) (r' : R.Rd) → R.read buf_size r ≡ (ok out, r')
      → b ∷ s ≡ out ++ rest
      → out ≢ []
      → length out ≤ buf_size
      → L.Yields r' rest
      → Sends (suc f) r (b ∷ s) sent
  unfolding send_all
  Sends-suc f ih r b s sent l [] rest r' q cut ne fits y' = absurd (ne refl)
  Sends-suc f ih r b s sent l (c ∷ out) rest r' q cut ne fits y' =
      let size : length (b ∷ s) ≡ suc (length out) + length rest =
        ap length cut ∙ length-append (c ∷ out) rest in
      let (r'', ds, z, same, are, over) = ih r' rest (sent ++ (c ∷ out) ∷ []) y' (omega arith) in
      (
        r'',
        (c ∷ out) ∷ ds,
        rw q (z ∙ ap (λ x. some (r'', x)) (append_assoc sent ((c ∷ out) ∷ []) ds)),
        ap (λ x. (c ∷ out) ++ x) same ∙ sym cut,
        (ne, fits, are),
        over,
      )

  Sends-all : (f : ℕ) → SendsAt f
  unfolding send_all
  Sends-all zero r s sent y l = absurd (omega arith)
  Sends-all (suc f) r [] sent y l = (
    r,
    [],
    rw (L.read_end buf_size r y) (ap (λ x. some (r, x)) (sym (append-nil sent))),
    refl,
    tt,
    y,
  )
  Sends-all (suc f) r (b ∷ s) sent y l =
      let (out, rest, r', q, cut, ne, fits, y') =
        L.read_some buf_size r (b ∷ s) y (omega arith) (ne-nil (b ∷ s) (omega arith)) in
      Sends-suc f (Sends-all f) r b s sent l out rest r' q cut ne fits y'

-- `send_all` on a stream without faults ends within one round more than there are bytes. It Sends-all
-- messages that are not empty and fit the buffer, which together are the stream, and leaves it at
-- its end.
pub send_all_lem :
    (R : Reader) (L : ReaderLaws R) (fuel : ℕ) (r : R.Rd) (s : Str) (sent : List Str)
    → L.Yields r s
    → length s < fuel
    → (r' : R.Rd) × (ds : List Str) × (send_all R keep fuel r sent ≡ some (r', sent ++ ds))
      × (joined ds ≡ s)
      × AreMessages ds
      × L.Yields r' []
send_all_lem R L fuel r s sent y l = Sends-all R L fuel r s sent y l
