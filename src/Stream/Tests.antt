-- ===== src/Stream/Tests.antt =====
-- The theorems about streams and channels at concrete inputs.
use http_req.Prelude.{ℕ, zero, suc, ◌≡◌, refl, some, List, [], ◌∷◌, ◌++◌, if◌then◌else◌, arith}
use http_req.Text.{Str, str}
use http_req.Error.{IoError, other, timeout, Outcome, ok, err}
use http_req.Reader.Buffered.{BufReader, bytes, buf_reader, buffered}
use http_req.Reader.Laws.{buffered_laws, buffered-Yields}
use http_req.Stream.Connect.{connect_with_timeout}
use http_req.Stream.Connect.Laws.{Comes, connect_with_timeout_lem}
use http_req.Stream.Receive.{Channel, receive_all}
use http_req.Stream.Receive.Laws.{write_vec, in_time, all_in_time, receive_all_lem}
use http_req.Stream.Send.{send_all}
use http_req.Stream.Send.Laws.{keep, joined, AreMessages, send_all_lem}

abbrev source : BufReader
source = buf_reader [] (bytes (str "hello") ∷ bytes (str " world") ∷ [])

source_yields : buffered_laws.Yields source (str "hello world")
source_yields =
    buffered-Yields source (str "hello world")
      (record { no_fail = ((λ e. cc), ((λ e. cc), tt)); left = refl })

send_all_lem_example :
    (r : BufReader) × (ds : List Str) × (send_all buffered keep 12 source [] ≡ some (r, [] ++ ds))
    × (joined ds ≡ str "hello world")
    × AreMessages ds
    × buffered_laws.Yields r []
send_all_lem_example =
    send_all_lem buffered buffered_laws 12 source (str "hello world") [] source_yields (omega arith)

abbrev channel : Channel
channel = record { now = 1; queue = (2, str "a") ∷ (5, str "b") ∷ (9, str "c") ∷ []; closed = 9 }

receive_all_lem_example :
    (c : Channel) × (receive_all write_vec 4 7 (channel, [])
      ≡ some (
        if all_in_time 7 9 channel.queue then ok tt else err timeout,
        (c, [] ++ in_time 7 channel.queue),
      ))
receive_all_lem_example = receive_all_lem 4 7 channel [] (omega arith) (omega arith)

-- The first address is refused.
abbrev try_addr : ℕ → ℕ → ℕ → Outcome IoError ℕ × ℕ
try_addr zero t w = (err (record { kind = other; message = str "refused" }), w)
try_addr (suc a) t w = (ok (suc a), w)

abbrev resolve : Str → ℕ → ℕ → Outcome IoError (List ℕ) × ℕ
resolve h p w = (ok (0 ∷ 4 ∷ []), w)

connect_with_timeout_lem_example :
    Comes try_addr 10
      (λ s. s)
      (str "host")
      (0 ∷ 4 ∷ [])
      0
      (connect_with_timeout try_addr 10 (λ s. s) (str "host") resolve 80 0)
connect_with_timeout_lem_example =
    connect_with_timeout_lem try_addr 10 (λ s. s) (str "host") resolve 80 (0 ∷ 4 ∷ []) 0 0 refl
