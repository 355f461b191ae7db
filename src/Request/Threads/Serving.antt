-- ===== src/Request/Threads/Serving.antt =====
-- A step of the calling thread, and the passing of the deadline, keep the invariant.
use http_req.Prelude.{
  ℕ, ◌+◌, ◌*◌, ◌≤◌, ◌≡◌, refl, sym, ap, ◌∙◌, Bool, true, false, Option, some, List, [], ◌∷◌, ◌++◌,
  ltb, length, arith, append_assoc, append-nil, length-append, Bool-cases, inl, inr,
}
use http_req.Text.{Str, str, str_eq}
use http_req.Error.{timeout, err}
use http_req.Method.{Method}
use http_req.Reader.{Reader, ReaderLaws}
use http_req.Uri.Access.{unwrap_or}
use http_req.Response.Message.{Response, basic_info, content_len, is_chunked}
use http_req.Stream.Receive.Laws.{write_vec}
use http_req.Stream.Send.Laws.{joined}
use http_req.Request.Client.{Request}
use http_req.Request.Threads.{
  Params, has_param, Worker, heads, waits, sends, ended, Caller, wants_head, goes_to, wants_body,
  returned, State,
}
use http_req.Request.Threads.Steps.{caller_step, params_sent, expire}
use http_req.Request.Threads.Invariant.{
  Carries, nothing, as_it_is, in_chunks, Answer, InvAt, Inv, Kept,
}
use http_req.Request.Threads.Working.{at}

-- Without a length no body is asked for.
unasked-body :
    (same : Str → Str → Bool) (x : Response) (m : Method)
    → ltb 0 (unwrap_or (content_len same x) 1) ≡ false
    → has_param (str "non-empty") (basic_info same x m) ≡ false
unfolding basic_info str_eq
unasked-body same x m h =
    rw h (elim (Bool-cases (is_chunked same x)) [ inl e ↦ rw e refl | inr e ↦ rw e refl ])

Carries-nothing :
    {ps : Params} {wire p : Str}
    → has_param (str "non-empty") ps ≡ false
    → Carries ps wire p
    → p ≡ []
Carries-nothing h (nothing k e) = e
Carries-nothing h (as_it_is k c e) = absurd (let z : true ≡ false = sym k ∙ h in cc)
Carries-nothing h (in_chunks ds k c t e) = absurd (let z : true ≡ false = sym k ∙ h in cc)

module _ (R : Reader) (L : ReaderLaws R) (same : Str → Str → Bool) (r : Request) (x : Response)
    (p : Str) (a : Answer same r x p) (late : Bool) where
  abbrev KeptIn : ℕ → Option (State R Str) → Type 0
  KeptIn = Kept R L same r x p a late

  abbrev state : Worker R → Caller → List Str → Option Params → Str → State R Str
  state = at R L same r x p a late

  -- The parameters are sent to a thread that waits for them.
  params_sent-Kept :
      (d : R.Rd) (ps : Option Params) (w : Str) (n : ℕ)
      → L.Yields d a.wire
      → w ≡ []
      → 2 * length p + 5 ≤ n
      → KeptIn n (some (params_sent R write_vec same r (state (waits d) wants_head [] ps w) x))
  params_sent-Kept d ps w n y we l = elim (Bool-cases (ltb 0 (unwrap_or (content_len same x) 1))) [
    | inl e ↦ rw e (2 * length p + 3, omega arith, (y, refl, refl, refl, we, omega arith))
    | inr e ↦
        let pe : p ≡ [] = Carries-nothing (unasked-body same x r.message.method e) a.carries in
        rw e (2 * length p + 2, omega arith, ((y, refl, omega arith), (refl, we ∙ sym pe)))
  ]

  abbrev Keeps : Worker R → Caller → List Str → Option Params → Str → Type 0
  Keeps d c q ps w =
      (n : ℕ)
      → InvAt R L same r x p a late d c q ps w n
      → KeptIn n (caller_step R write_vec same r (state d c q ps w))

  at_head : (d : Worker R) (q : List Str) (ps : Option Params) (w : Str) → Keeps d wants_head q ps w
  unfolding caller_step
  at_head (heads d) q ps w n (y, qe, pse, we, l) = rw qe tt
  at_head (waits d) q ps w n (y, qe, pse, we, l) =
      rw qe (rw a.parsed (rw a.final (params_sent-Kept d ps w n y we l)))
  at_head (sends b) q ps w n h = absurd h
  at_head ended q ps w n h = absurd h

  at_body :
      (d : Worker R) (y : Response) (q : List Str) (ps : Option Params) (w : Str)
      → Keeps d (wants_body y) q ps w
  unfolding caller_step
  at_body (heads d) y q ps w n h = absurd h
  at_body (waits d) y q ps w n (z, ye, qe, pse, we, l) = rw qe tt
  at_body (sends b) y [] ps w n h = tt
  at_body (sends b) y (d ∷ q) ps w n (l, z, ye, pe, k) = (
    2 * length l + length q + 2,
    omega arith,
    (
      l,
      z,
      ye,
      pe ∙ ap (λ v. w ++ v) (append_assoc d (joined q) l) ∙ sym (append_assoc w d (joined q ++ l)),
      omega arith,
    ),
  )
  at_body ended y [] ps w n (ye, pe, k) = (0, omega arith, (tt, (ye, sym (pe ∙ append-nil w))))
  at_body ended y (d ∷ q) ps w n (ye, pe, k) =
      (length q + 1, omega arith, (ye, pe ∙ sym (append_assoc w d (joined q)), omega arith))

  pub caller_step-Kept :
      (n : ℕ) (s : State R Str)
      → Inv R L same r x p a late n s
      → KeptIn n (caller_step R write_vec same r s)
  caller_step-Kept n s h = go s.worker s.caller s.queue s.params s.writer n h
    where
      go :
          (d : Worker R) (c : Caller) (q : List Str) (ps : Option Params) (w : Str)
          → Keeps d c q ps w
      go d wants_head q ps w n h = at_head d q ps w n h
      go d (goes_to policy r') q ps w n h = unfold caller_step in tt
      go d (wants_body y) q ps w n h = at_body d y q ps w n h
      go d (returned o) q ps w n h = unfold caller_step in tt

  -- A thread that is left alone.
  left_alone :
      (d : Worker R) (y : Response) (q : List Str) (ps : Option Params) (w : Str) (n : ℕ)
      → InvAt R L same r x p a late d (wants_body y) q ps w n
      → Kept R L same r x p a true n (some (state d (returned (err timeout)) q ps w))
  left_alone (heads d) y q ps w n h = absurd h
  left_alone (waits d) y q ps w n (z, ye, qe, pse, we, l) = (
    2 * length p + 2,
    omega arith,
    ((z, rw pse refl, omega arith), (refl, refl, (p, rw we refl))),
  )
  left_alone (sends b) y q ps w n (l, z, ye, pe, k) =
      let le : length l ≤ length p =
        omega (arith, ap length pe, length-append w (joined q ++ l), length-append (joined q) l) in
      (2 * length l + 1, omega arith, ((l, z, le, omega arith), (refl, refl, (joined q ++ l, pe))))
  left_alone ended y q ps w n (ye, pe, k) = (0, omega arith, (tt, (refl, refl, (joined q, pe))))

  pub expire-Kept :
      (n : ℕ) (s : State R Str)
      → Inv R L same r x p a late n s
      → Kept R L same r x p a true n (expire R s)
  unfolding expire
  expire-Kept n s h = go s.worker s.caller s.queue s.params s.writer n h
    where
      go :
          (d : Worker R) (c : Caller) (q : List Str) (ps : Option Params) (w : Str) (m : ℕ)
          → InvAt R L same r x p a late d c q ps w m
          → Kept R L same r x p a true m (expire R (state d c q ps w))
      go (heads d) wants_head [] ps w m (y, qe, pse, we, l) =
          (2 * length p + 4, omega arith, ((y, pse, omega arith), (refl, refl, (p, rw we refl))))
      go (waits d) wants_head [] ps w m (y, qe, pse, we, l) =
          absurd (let z = ap length qe in omega arith)
      go (sends b) wants_head q ps w m h = absurd h
      go ended wants_head q ps w m h = absurd h
      go (heads d) wants_head (e ∷ q) ps w m h = tt
      go (waits d) wants_head (e ∷ q) ps w m h = tt
      go d (goes_to policy r') q ps w m h = tt
      go d (wants_body y) q ps w m h = left_alone d y q ps w m h
      go d (returned o) q ps w m h = tt
