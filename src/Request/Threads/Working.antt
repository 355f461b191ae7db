-- ===== src/Request/Threads/Working.antt =====
-- A step of the reading thread keeps the invariant.
use http_req.Prelude.{
  ℕ, ◌+◌, ◌*◌, ◌≤◌, ◌<◌, ◌≡◌, refl, sym, ap, ◌∙◌, Bool, Option, none, some, List, [], ◌∷◌, ◌++◌,
  length, arith, append_assoc, append-nil, length-append,
}
use http_req.Text.{Str}
use http_req.Error.{Error, Outcome}
use http_req.Reader.{Reader, ReaderLaws}
use http_req.Chunked.{from_reader}
use http_req.Chunked.States.{header}
use http_req.Response.Message.{Response}
use http_req.Stream.Send.Laws.{joined}
use http_req.Stream.Head.Laws.{read_head_lem}
use http_req.Request.Client.{Request}
use http_req.Request.Threads.{
  Params, Worker, heads, waits, sends, ended, Body, plain, decoded, Got, Caller, wants_head,
  goes_to, wants_body, returned, State, body_read, body_of,
}
use http_req.Request.Threads.Steps.{body_sent, worker_step}
use http_req.Request.Threads.Bodies.{Holds, Comes, more, over, body_read_lem}
use http_req.Request.Threads.Invariant.{
  nothing, as_it_is, in_chunks, Answer, asked, Ends, Expected, InvAt, Inv, Kept,
}

pub joined-append : (q : List Str) (d : Str) → joined (q ++ d ∷ []) ≡ joined q ++ d
joined-append [] d = append-nil d
joined-append (e ∷ q) d = ap (λ w. e ++ w) (joined-append q d) ∙ sym (append_assoc e (joined q) d)

module _ (R : Reader) (L : ReaderLaws R) (same : Str → Str → Bool) (r : Request) (x : Response)
    (p : Str) (a : Answer same r x p) (late : Bool) where
  -- What the thread goes on with behind the parameters, in front of the body.
  pub data Turns : Worker R → Type 0 where
    to_send : {d : Worker R} (b : Body R) → d ≡ sends b → Holds R L b p → Turns d
    to_end : {d : Worker R} → d ≡ ended → p ≡ [] → Turns d

  pub body_of-Turns :
      (d : R.Rd) → L.Yields d a.wire → Turns (body_of R d (asked R L same r x p a late))
  unfolding body_of from_reader
  body_of-Turns d y = elim a.carries [
    | nothing h e ↦ rw h (to_end refl e)
    | as_it_is h k e ↦ rw (h, k) (to_send (plain d) refl (rw (sym e) at y))
    | in_chunks ds h k z e ↦
        rw (h, k)
          (to_send (decoded (from_reader R d)) refl
            (1, header ds a.wire refl refl refl refl refl y z e))
  ]

  abbrev pub at : Worker R → Caller → List Str → Option Params → Str → State R Str
  at d c q ps w = record { worker = d; caller = c; queue = q; params = ps; writer = w }

  abbrev KeptIn : ℕ → Option (State R Str) → Type 0
  KeptIn = Kept R L same r x p a late

  unasked : {ps : Option Params} → ps ≡ none → Expected R L same r x p a late ps
  unasked e = rw e tt

  turned_body :
      (d : Worker R)
      → Turns d
      → (y : Response) (q : List Str) (w : Str) (n : ℕ) → y ≡ x
      → q ≡ []
      → w ≡ []
      → 2 * length p + 3 ≤ n
      → KeptIn n (some (at d (wants_body y) q none w))
  turned_body d (to_send b e h) y q w n ye qe we l =
      rw e
        (2 * length p + 2, omega arith, (p, h, ye, rw (we, qe) refl, omega (arith, ap length qe)))
  turned_body d (to_end e pe) y q w n ye qe we l =
      rw e (1, omega arith, (ye, rw (we, qe) pe, omega (arith, ap length qe)))

  turned_alone :
      (d : Worker R)
      → Turns d
      → (o : Outcome Error Response) (q : List Str) (w : Str) (n : ℕ) → 2 * length p + 2 ≤ n
      → Ends R L same r x p a late o w
      → KeptIn n (some (at d (returned o) q none w))
  turned_alone d (to_send b e h) o q w n l f =
      rw e (2 * length p + 1, omega arith, ((p, h, omega arith, omega arith), f))
  turned_alone d (to_end e pe) o q w n l f = rw e (0, omega arith, (tt, f))

  module _ (fuel : ℕ) (enough : length a.stream + (2 * length p + 1) < fuel) where
    abbrev Keeps : Worker R → Caller → List Str → Option Params → Str → Type 0
    Keeps d c q ps w =
        (n : ℕ)
        → InvAt R L same r x p a late d c q ps w n
        → Kept R L same r x p a late n (worker_step R fuel (at d c q ps w))

    sent_body :
        (b : Body R) (l : Str) (y : Response) (q : List Str) (ps : Option Params) (w : Str) (n : ℕ)
        → y ≡ x
        → p ≡ w ++ (joined q ++ l)
        → 2 * length l + length q + 2 ≤ n
        → (g : Got R) → Comes R L l g
        → KeptIn n (body_sent R fuel (at (sends b) (wants_body y) q ps w) g)
    sent_body b l y q ps w n ye pe k g (more c d m b' ge le h) =
        let msg : Str = c ∷ d in
        let same_text : joined q ++ l ≡ joined (q ++ msg ∷ []) ++ m =
          ap (λ v. joined q ++ v) le
          ∙ sym (append_assoc (joined q) msg m)
          ∙ ap (λ v. v ++ m) (sym (joined-append q msg)) in
        let shorter : length l ≡ length msg + length m = ap length le ∙ length-append msg m in
        rw ge (
          2 * length m + length (q ++ msg ∷ []) + 2,
          omega (arith, length-append q (msg ∷ [])),
          (m, h, ye, pe ∙ ap (λ v. w ++ v) same_text, omega arith),
        )
    sent_body b l y q ps w n ye pe k g (over b' ge le) = rw ge (
      length q + 1,
      omega arith,
      (ye, pe ∙ ap (λ v. w ++ v) (ap (λ v. joined q ++ v) le ∙ append-nil (joined q)), omega arith),
    )

    sent_alone :
        (b : Body R) (l : Str) (o : Outcome Error Response) (q : List Str) (ps : Option Params)
        (w : Str) (n : ℕ)
        → Ends R L same r x p a late o w
        → 2 * length l + 1 ≤ n
        → (g : Got R) → Comes R L l g
        → KeptIn n (body_sent R fuel (at (sends b) (returned o) q ps w) g)
    sent_alone b l o q ps w n e k g (more c d m b' ge le h) = rw ge (0, omega arith, (tt, e))
    sent_alone b l o q ps w n e k g (over b' ge le) = rw ge (0, omega arith, (tt, e))

    -- In `send_head`.
    from_head_on :
        (d : R.Rd) (c : Caller) (q : List Str) (ps : Option Params) (w : Str)
        → Keeps (heads d) c q ps w
    unfolding worker_step
    from_head_on d wants_head q ps w n (y, qe, pse, we, l) =
        let (d', z, y') =
          read_head_lem R L fuel d a.stream a.head a.wire y a.starts (omega arith) in
        rw z
          (2 * length p + 5, omega arith, (y', ap (λ k. k ++ a.head ∷ []) qe, pse, we, omega arith))
    from_head_on d (goes_to policy r') q ps w n h = absurd h
    from_head_on d (wants_body y) q ps w n h = absurd h
    from_head_on d (returned o) q ps w n ((y, pse, l), e) =
        let (d', z, y') =
          read_head_lem R L fuel d a.stream a.head a.wire y a.starts (omega arith) in
        rw z (2 * length p + 2, omega arith, ((y', unasked pse, omega arith), e))

    -- At `receiver_supp.recv()`.
    from_wait :
        (d : R.Rd) (c : Caller) (q : List Str) (ps : Option Params) (w : Str)
        → Keeps (waits d) c q ps w
    unfolding worker_step
    from_wait d wants_head q ps w n (y, qe, pse, we, l) = rw pse tt
    from_wait d (goes_to policy r') q ps w n h = absurd h
    from_wait d (wants_body y) q ps w n (z, ye, qe, pse, we, l) = rw pse (
        turned_body (body_of R d (asked R L same r x p a late)) (body_of-Turns d z) y q w n ye qe we
          l)
    from_wait d (returned o) q none w n ((y, t, l), e) = (0, omega arith, (tt, e))
    from_wait d (returned o) q (some ps) w n ((y, t, l), e) =
        rw t
          (turned_alone (body_of R d (asked R L same r x p a late)) (body_of-Turns d y) o q w n l e)

    -- In the loop of `send_all`.
    from_send :
        (b : Body R) (c : Caller) (q : List Str) (ps : Option Params) (w : Str)
        → Keeps (sends b) c q ps w
    unfolding worker_step
    from_send b wants_head q ps w n h = absurd h
    from_send b (goes_to policy r') q ps w n h = absurd h
    from_send b (wants_body y) q ps w n (l, z, ye, pe, k) =
        let le : length l ≤ length p =
          omega
            (arith, ap length pe, length-append w (joined q ++ l), length-append (joined q) l) in
        sent_body b l y q ps w n ye pe k (body_read R fuel b)
          (body_read_lem R L fuel b l (omega arith) z)
    from_send b (returned o) q ps w n ((l, z, le, k), e) =
        sent_alone b l o q ps w n e k (body_read R fuel b)
          (body_read_lem R L fuel b l (omega arith) z)

    pub worker_step-Kept :
        (n : ℕ) (s : State R Str) → Inv R L same r x p a late n s → KeptIn n (worker_step R fuel s)
    worker_step-Kept n s h = go s.worker s.caller s.queue s.params s.writer n h
      where
        go :
            (d : Worker R) (c : Caller) (q : List Str) (ps : Option Params) (w : Str)
            → Keeps d c q ps w
        go (heads d) c q ps w n h = from_head_on d c q ps w n h
        go (waits d) c q ps w n h = from_wait d c q ps w n h
        go (sends b) c q ps w n h = from_send b c q ps w n h
        go ended c q ps w n h = unfold worker_step in tt
