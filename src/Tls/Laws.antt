-- ===== src/Tls/Laws.antt =====
-- The certificates that are taken from a PEM file.
use http_req.Prelude.{
  ◌≡◌, refl, sym, ap, ◌∙◌, true, false, none, some, List, [], ◌∷◌, ◌++◌, map, append_assoc,
  append-nil, Option-cases, inl, inr,
}
use http_req.Text.{Str, str, contains}
use http_req.Error.{Error, tls, IoError, Outcome, ok, err}
use http_req.Tls.{TlsStream}
use http_req.Tls.Native.{NativeTls, Config, add_cert, add_lines, add_root_cert_file_pem}

-- The lines of a certificate: those in front of its last one, and the last one, which has the end
-- mark.
pub record Block : Type 0 where
  pub front : List Str
  pub last : Str

abbrev pub HaveNoEnd : List Str → Type 0
HaveNoEnd [] = Unit
HaveNoEnd (l ∷ ls) = (contains l (str "-----END") ≡ false) × HaveNoEnd ls

abbrev pub AreBlocks : List Block → Type 0
AreBlocks [] = Unit
AreBlocks (b ∷ bs) = HaveNoEnd b.front × (contains b.last (str "-----END") ≡ true) × AreBlocks bs

abbrev pub lines_of : List Block → List Str
lines_of [] = []
lines_of (b ∷ bs) = b.front ++ (b.last ∷ lines_of bs)

-- The text of lines, each with its newline.
abbrev pub with_newlines : List Str → Str
with_newlines [] = []
with_newlines (l ∷ ls) = (l ++ b'\n' ∷ []) ++ with_newlines ls

abbrev pub pem_of : Block → Str
pem_of b = with_newlines (b.front ++ b.last ∷ [])

module _ {S W : Type 0} (L : TlsStream S W) (N : NativeTls L) where
  -- The certificates up to the first that the library refuses.
  abbrev pub certs_of : List Block → Outcome Error Unit × List N.Cert
  certs_of [] = (ok tt, [])
  certs_of (b ∷ bs) = elim (N.from_pem (pem_of b)) [
    | none ↦ (err tls, [])
    | some crt ↦ let (o, cs) = certs_of bs in (o, crt ∷ cs)
  ]

  abbrev pub lines_ok : List Str → List (Outcome IoError Str)
  lines_ok = map ok

  no_end :
      (ls : List Str) (rest : List (Outcome IoError Str)) (pem : Str) (c : Config L N)
      → HaveNoEnd ls
      → add_lines L N (lines_ok ls ++ rest) pem c ≡ add_lines L N rest (pem ++ with_newlines ls) c
  unfolding add_lines
  no_end [] rest pem c h = ap (λ x. add_lines L N rest x c) (sym (append-nil pem))
  no_end (l ∷ ls) rest pem c h = rw h.0 (
      no_end ls rest (pem ++ (l ++ b'\n' ∷ [])) c h.1
      ∙ ap (λ x. add_lines L N rest x c) (append_assoc pem (l ++ b'\n' ∷ []) (with_newlines ls)))

  lines_ok-append :
      (ls : List Str) (l : Str) (r : List Str)
      → lines_ok (ls ++ (l ∷ r)) ≡ lines_ok ls ++ (ok l ∷ lines_ok r)
  lines_ok-append [] l r = refl
  lines_ok-append (k ∷ ls) l r = ap (λ x. ok k ∷ x) (lines_ok-append ls l r)

  with_newlines-append :
      (ls : List Str) (l : Str)
      → with_newlines (ls ++ l ∷ []) ≡ with_newlines ls ++ (l ++ b'\n' ∷ [])
  with_newlines-append [] l = append-nil (l ++ b'\n' ∷ [])
  with_newlines-append (k ∷ ls) l =
      ap (λ x. (k ++ b'\n' ∷ []) ++ x) (with_newlines-append ls l)
      ∙ sym (append_assoc (k ++ b'\n' ∷ []) (with_newlines ls) (l ++ b'\n' ∷ []))

  abbrev pub grown : Config L N → Outcome Error Unit × List N.Cert → Outcome Error Unit × Config L N
  grown c (o, cs) = (o, record { extra_root_certs = c.extra_root_certs ++ cs })

  abbrev grown_to : Outcome Error Unit → List N.Cert → Outcome Error Unit × Config L N
  grown_to o cs = (o, record { extra_root_certs = cs })

  block_step :
      (b : Block) (rest : List Str) (c : Config L N)
      → HaveNoEnd b.front
      → contains b.last (str "-----END") ≡ true
      → add_lines L N (lines_ok (b.front ++ (b.last ∷ rest))) [] c
        ≡ add_cert L N (add_lines L N (lines_ok rest) []) c (N.from_pem (pem_of b))
  unfolding add_lines
  block_step b rest c h k =
      ap (λ x. add_lines L N x [] c) (lines_ok-append b.front b.last rest)
      ∙ no_end b.front (ok b.last ∷ lines_ok rest) [] c h
      ∙ rw k (
          ap (λ x. add_cert L N (add_lines L N (lines_ok rest) []) c (N.from_pem x))
            (sym (with_newlines-append b.front b.last)))

  blocks_lem :
      (bs : List Block) (left : List Str) (c : Config L N)
      → AreBlocks bs
      → HaveNoEnd left
      → add_lines L N (lines_ok (lines_of bs ++ left)) [] c ≡ grown c (certs_of bs)
  unfolding add_lines
  blocks_lem [] left c h k =
      ap (λ x. add_lines L N x [] c) (sym (append-nil (lines_ok left)))
      ∙ no_end left [] [] c k
      ∙ ap (λ x. grown_to (ok tt) x) (sym (append-nil c.extra_root_certs))
  blocks_lem (b ∷ bs) left c (h, e, a) k =
      ap (λ x. add_lines L N (lines_ok x) [] c) (append_assoc b.front (b.last ∷ lines_of bs) left)
      ∙ block_step b (lines_of bs ++ left) c h e
      ∙ elim (Option-cases (N.from_pem (pem_of b))) [
        | inl q ↦ rw (q, certs_of) (ap (grown_to (err tls)) (sym (append-nil c.extra_root_certs)))
        | inr (crt, q) ↦
            rw (q, certs_of)
              (blocks_lem bs left (record { extra_root_certs = c.extra_root_certs ++ crt ∷ [] }) a k
                ∙ ap (grown_to (certs_of bs).0)
                    (append_assoc c.extra_root_certs (crt ∷ []) (certs_of bs).1))
      ]

-- A PEM file of certificates, each a run of lines of which the last and no other has "-----END", with
-- any lines without it behind them: the certificates are added in the order of the file, each made
-- of its own lines, up to the first that the library refuses; then the result is a TLS error, and
-- those in front of it stay.
pub add_root_cert_file_pem_lem :
    {S W : Type 0} (L : TlsStream S W) (N : NativeTls L) (path : Str) (bs : List Block)
    (left : List Str) (c : Config L N) (w w' : W)
    → N.lines path w ≡ (ok (lines_ok L N (lines_of bs ++ left)), w')
    → AreBlocks bs
    → HaveNoEnd left
    → add_root_cert_file_pem L N path c w ≡ (grown L N c (certs_of L N bs), w')
unfolding add_root_cert_file_pem
add_root_cert_file_pem_lem L N path bs left c w w' e h k =
    rw e (ap (λ x. (x, w')) (blocks_lem L N bs left c h k))
