-- ===== src/Stream/Receive/Laws.antt =====
-- What `receive_all` writes, and when it ends.
use http_req.Prelude.{
  ℕ, zero, suc, ◌+◌, ◌-◌, ◌≤◌, ◌<◌, ◌≡◌, refl, sym, ap, ◌∙◌, Bool, ◌&&◌, Option, some, List, [],
  ◌∷◌, ◌++◌, if◌then◌else◌, leb, length, arith, append_assoc, append-nil, Bool-cases, inl, inr,
  le→ltb-false,
}
use http_req.Text.{Str}
use http_req.Error.{IoError, Error, timeout, Outcome, ok, err}
use http_req.Stream.Deadline.{execute_with_deadline, after_call}
use http_req.Stream.Receive.{
  Channel, later, recv_from, recv_timeout, receive_one, receive_all, clock_of, take_received,
}

-- A `Vec<u8>` as a writer.
abbrev pub write_vec : Str → Str → Outcome IoError Unit × Str
write_vec d w = (ok tt, w ++ d)

-- The data of the messages up to the first that arrives behind the deadline.
abbrev pub in_time : ℕ → List (ℕ × Str) → Str
in_time deadline [] = []
in_time deadline ((t, d) ∷ q) = if leb t deadline then d ++ in_time deadline q else []

abbrev pub all_in_time : ℕ → ℕ → List (ℕ × Str) → Bool
all_in_time deadline closed [] = leb closed deadline
all_in_time deadline closed ((t, d) ∷ q) = leb t deadline && all_in_time deadline closed q

abbrev Ends : ℕ → ℕ → Channel → Str → Type 0
Ends fuel deadline c w =
    (c' : Channel) × (receive_all write_vec fuel deadline (c, w)
      ≡ some (
        if all_in_time deadline c.closed c.queue then ok tt else err timeout,
        (c', w ++ in_time deadline c.queue),
      ))

abbrev at : ℕ → ℕ → List (ℕ × Str) → Channel
at now closed q = record { now = now; queue = q; closed = closed }

abbrev ended : Outcome Error Unit → Channel → Str → Option (Outcome Error Unit × (Channel × Str))
ended o c w = some (o, (c, w))

unwritten : (o : Outcome Error Unit) (c : Channel) (w : Str) → ended o c w ≡ ended o c (w ++ [])
unwritten o c w = ap (ended o c) (sym (append-nil w))

receive_step :
    (f deadline : ℕ) (c : Channel) (w : Str)
    → c.now ≤ deadline
    → receive_all write_vec (suc f) deadline (c, w)
      ≡ after_call
          (clock_of write_vec)
          (receive_one write_vec)
          deadline
          (λ s. receive_all write_vec f deadline s)
          (take_received write_vec w (recv_from deadline c.now c.closed c.queue))
unfolding receive_all execute_with_deadline receive_one recv_timeout
receive_step f deadline c w l =
    let all_left : c.now + (deadline - c.now) ≡ deadline = omega arith in
    rw (le→ltb-false deadline c.now l) (rw all_left refl)

ends :
    (f deadline now closed : ℕ) (q : List (ℕ × Str)) (w : Str)
    → length q < f
    → now ≤ deadline
    → Ends f deadline (at now closed q) w
ends zero deadline now closed q w l k = absurd (omega arith)
ends (suc f) deadline now closed [] w l k =
    let step = receive_step f deadline (at now closed []) w k in
    elim (Bool-cases (leb closed deadline)) [
      | inl e ↦ (
        at (later now closed) closed [],
        step ∙ rw e (unwritten (ok tt) (at (later now closed) closed []) w),
      )
      | inr n ↦
          (at deadline closed [], step ∙ rw n (unwritten (err timeout) (at deadline closed []) w))
    ]
ends (suc f) deadline now closed ((t, d) ∷ q) w l k =
    let step = receive_step f deadline (at now closed ((t, d) ∷ q)) w k in
    elim (Bool-cases (leb t deadline)) [
      | inl e ↦
          let (c', z) =
            ends f deadline (later now t) closed q (w ++ d) (omega arith) (ground (arith, e)) in
          let o = if all_in_time deadline closed q then ok tt else err timeout in
          (c', step ∙ rw e (z ∙ ap (ended o c') (append_assoc w d (in_time deadline q))))
      | inr n ↦
          let c : Channel = at deadline closed ((t, d) ∷ q) in
          (c, step ∙ rw n (unwritten (err timeout) c w))
    ]

-- `receive_all`, started before the deadline, ends within one round more than there are messages. It
-- writes the messages in order, up to the first that arrives behind the deadline. It succeeds if
-- all messages arrive, and the sender goes, by the deadline; else it fails with a time-out.
pub receive_all_lem :
    (fuel deadline : ℕ) (c : Channel) (w : Str)
    → length c.queue < fuel
    → c.now ≤ deadline
    → (c' : Channel) × (receive_all write_vec fuel deadline (c, w)
        ≡ some (
          if all_in_time deadline c.closed c.queue then ok tt else err timeout,
          (c', w ++ in_time deadline c.queue),
        ))
receive_all_lem fuel deadline c w l k = ends fuel deadline c.now c.closed c.queue w l k
