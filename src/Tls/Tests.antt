-- ===== src/Tls/Tests.antt =====
-- The theorem about PEM files at a concrete file, and a library that refuses one certificate.
use http_req.Prelude.{ℕ, map, ◌≡◌, refl, none, some, List, [], ◌∷◌, ◌++◌, if◌then◌else◌}
use http_req.Text.{Str, str, contains, find, starts_with}
use http_req.Error.{connection_aborted, ok, err, tls}
use http_req.Tls.{TlsStream, Conn, native_tls, rust_tls, read}
use http_req.Tls.Native.{NativeTls, Config, add_root_cert_file_pem}
use http_req.Tls.Laws.{
  Block, AreBlocks, HaveNoEnd, lines_of, certs_of, grown, add_root_cert_file_pem_lem,
}

-- A stream that the other side has left without a notice.
abbrev stream : TlsStream Unit ℕ
stream = record {
  T = Unit;
  socket = λ t. t;
  read = λ k t w. (err (record { kind = connection_aborted; message = [] }), w);
  write = λ d t w. (ok 0, w);
  flush = λ t w. (ok tt, w);
}

abbrev conn : Conn stream
conn = record { stream = tt }

read_tests :
    (read stream rust_tls 10 conn 0 ≡ (ok [], 0))
    × (read stream native_tls 10 conn 0
        ≡ (err (record { kind = connection_aborted; message = [] }), 0))
unfolding read
read_tests = (refl, refl)

abbrev block : Str → Block
block s = record { front = str "-----BEGIN" ∷ s ∷ []; last = str "-----END" }

abbrev blocks : List Block
blocks = block (str "one") ∷ block (str "bad") ∷ block (str "three") ∷ []

abbrev library : NativeTls stream
library = record {
  Cert = Str;
  Connector = Unit;
  lines = λ p w. (ok (map ok (lines_of blocks ++ str "end" ∷ [])), w);
  from_pem = λ s. if contains s (str "bad") then none else some s;
  build = λ cs. some tt;
  handshake = λ c h s w. (some tt, w);
}

abbrev config : Config stream library
config = record { extra_root_certs = [] }

blocks_are : AreBlocks blocks
unfolding contains find starts_with
blocks_are = ((refl, (refl, tt)), refl, ((refl, (refl, tt)), refl, ((refl, (refl, tt)), refl, tt)))

left_lack : HaveNoEnd (str "end" ∷ [])
unfolding contains find starts_with
left_lack = (refl, tt)

certs_test : certs_of stream library blocks ≡ (err tls, str "-----BEGIN\none\n-----END\n" ∷ [])
unfolding contains find starts_with
certs_test = refl

add_root_cert_file_pem_lem_example :
    add_root_cert_file_pem stream library (str "ca.pem") config 0
    ≡ (grown stream library config (certs_of stream library blocks), 0)
add_root_cert_file_pem_lem_example =
    add_root_cert_file_pem_lem stream library (str "ca.pem") blocks (str "end" ∷ []) config 0 0 refl
      blocks_are left_lack
