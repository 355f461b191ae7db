-- ===== src/Request/Threads/Written.antt =====
-- `Request::send` behind the request message, where the server answers with a response as it is written.
use http_req.Prelude.{ℕ, ◌+◌, ◌*◌, ◌<◌, ◌≡◌, ◌≢◌, refl, Bool, false, none, [], ◌++◌, length}
use http_req.Text.{Str}
use http_req.Text.Utf8.{utf8_error}
use http_req.Error.{ok}
use http_req.Reader.{Reader, ReaderLaws}
use http_req.Response.Fields.{Headers}
use http_req.Response.Fields.Text.{AreFields, inserted}
use http_req.Response.Code.{is_redirect}
use http_req.Response.StatusLine.{Status}
use http_req.Response.StatusLine.Laws.{IsStatus}
use http_req.Response.Message.{Response, basic_info, status_code}
use http_req.Response.Message.Laws.{head_text, from_head-head_text}
use http_req.Stream.Head.Message.{head_text-HeadOf}
use http_req.Stream.Receive.Laws.{write_vec}
use http_req.Request.Client.{Request}
use http_req.Request.Send.{stays, next_request}
use http_req.Request.Threads.{ended, returned, State, spawned}
use http_req.Request.Threads.Invariant.{Carries, Answer}
use http_req.Request.Threads.Steps.{Runs, start}
use http_req.Request.Threads.Laws.{Got, runs-Got, runs_complete}

abbrev pub written : (Str → Str → Bool) → Status → Headers → Response
written same s h = record { status = s; headers = inserted same [] h }

-- The head of a response, of valid UTF-8 and with at least one header, that is no redirect.
pub record IsFinal (same : Str → Str → Bool) (r : Request) (s : Status) (h : Headers) (wire p : Str)
    : Type 0 where
  pub is_status : IsStatus s
  pub are_fields : AreFields h
  pub some_field : h ≢ []
  pub valid : utf8_error (head_text s h) ≡ none
  pub no_redirect : is_redirect s.code ≡ false
  pub body : Carries (basic_info same (written same s h) r.message.method) wire p

stays_lem :
    (same : Str → Str → Bool) (r : Request) (x : Response)
    → is_redirect x.status.code ≡ false
    → next_request same r x ≡ stays
unfolding next_request status_code
stays_lem same r x h = rw h refl

pub answer_lem :
    (same : Str → Str → Bool) (r : Request) (s : Status) (h : Headers) (wire p : Str)
    → IsFinal same r s h wire p
    → Answer same r (written same s h) p
answer_lem same r s h wire p f = record {
  stream = head_text s h ++ wire;
  head = head_text s h;
  wire = wire;
  starts = head_text-HeadOf s h wire f.is_status f.are_fields;
  parsed = from_head-head_text same s h f.is_status f.are_fields f.some_field f.valid;
  final = stays_lem same r (written same s h) f.no_redirect;
  carries = f.body;
}

-- A server answers with a head of valid UTF-8 with at least one header, which is no redirect, and a
-- body, as it is or chunked as the head says. Then the threads of `send` can come to the state in
-- which `send` has given the response that was written and the writer has the body; and in whatever
-- order they are run, `send` gives nothing else, or a time-out if the deadline has passed.
pub send-written :
    (R : Reader) (L : ReaderLaws R) (same : Str → Str → Bool) (r : Request) (s : Status)
    (h : Headers) (wire p : Str) (fuel : ℕ) (d : R.Rd) (late : Bool) (n : ℕ) (t : State R Str)
    → IsFinal same r s h wire p
    → length (head_text s h ++ wire) + (2 * length p + 1) < fuel
    → L.Yields d (head_text s h ++ wire)
    → Runs R write_vec same r fuel (spawned R Str d []) late n t
    → ((k : ℕ) × (u : State R Str) × Runs R write_vec same r fuel (spawned R Str d []) false k u
        × (u.worker ≡ ended)
        × (u.caller ≡ returned (ok (written same s h)))
        × (u.writer ≡ p))
      × Got late (written same s h) p t.caller t.writer
unfolding answer_lem
send-written R L same r s h wire p fuel d late n t f enough y run =
    let a : Answer same r (written same s h) p = answer_lem same r s h wire p f in
    let before : State R Str = spawned R Str d [] in
    (
      runs_complete R L same r (written same s h) p a fuel d 0 before enough y (start refl),
      (runs-Got R L same r (written same s h) p a fuel d late n t enough y run).1,
    )
