-- ===== src/Request/Threads.antt =====
-- src/request.rs: the two threads of `Request::send` behind the request message, with the channels
-- between them: the one that reads the stream, spawned there, and the one that called `send`.
-- A thread's ends of the channels are gone when it is over.
pub mod Steps
pub mod Bodies
pub mod Invariant
pub mod Working
pub mod Serving
pub mod Going
pub mod Laws
pub mod Written
pub mod Played
pub mod Results
mod Tests
use http_req.Prelude.{
  ℕ, suc, ◌≡◌, Bool, true, false, ◌||◌, Option, none, some, List, [], ◌∷◌, ◌++◌, if◌then◌else◌, ltb,
}
use http_req.Text.{Str, str, str_eq}
use http_req.Error.{IoError, Error, io, timeout, thread, Outcome, ok, err, panic}
use http_req.Reader.{Reader}
use http_req.Uri.Access.{unwrap_or}
use http_req.Chunked.{ChunkReader, from_reader, ReadResult, returns, panics, out_of_fuel}
use http_req.Chunked as Chunked
use http_req.Response.Message.{Response, from_head, basic_info, content_len}
use http_req.Stream.Send.{buf_size}
use http_req.Stream.Head.{read_head}
use http_req.Request.Client.{Request}
use http_req.Request.Redirect.{RedirectPolicy}
use http_req.Request.Send.{Next, stays, goes, fails, breaks, next_request}

abbrev pub Params : Type 0
Params = Str × Str

-- `params.contains(&name)`
abbrev pub has_param : Str → Params → Bool
has_param name (a, b) = str_eq a name || str_eq b name

module _ (R : Reader) where
  open R use {Rd}

  -- What `send_all` reads from.
  pub data Body : Type 0 where
    plain : Rd → Body
    decoded : ChunkReader R → Body

  -- The reading thread: before `send_head`; at `receiver_supp.recv()`; in the loop of `send_all`.
  pub data Worker : Type 0 where
    heads : Rd → Worker
    waits : Rd → Worker
    sends : Body → Worker
    ended : Worker

  -- A read of `send_all`: a result; a panic; a loop that goes on beyond the fuel.
  pub data Got : Type 0 where
    gives : Outcome IoError Str → Body → Got
    breaks_off : Got
    hangs : Got

  abbrev pub decoded_read : ReadResult R → Got
  decoded_read (returns o c) = gives o (decoded c)
  decoded_read panics = breaks_off
  decoded_read out_of_fuel = hangs

  abbrev pub plain_read : Outcome IoError Str × Rd → Got
  plain_read (o, r) = gives o (plain r)

  unfoldable pub body_read : ℕ → Body → Got
  body_read fuel (plain r) = plain_read (R.read buf_size r)
  body_read fuel (decoded c) = decoded_read (Chunked.read R fuel buf_size c)

  -- What the thread does with the parameters.
  unfoldable pub body_of : Rd → Params → Worker
  body_of r p =
      if has_param (str "non-empty") p
      then sends (if has_param (str "chunked") p then decoded (from_reader R r) else plain r)
      else ended

-- The thread that called `send`: at the head; in the request behind a redirect; in `receive_all`.
pub data Caller : Type 0 where
  wants_head : Caller
  goes_to : RedirectPolicy → Request → Caller
  wants_body : Response → Caller
  returned : Outcome Error Response → Caller

abbrev pub is_returned : Caller → Bool
is_returned (returned o) = true
is_returned _ = false

module _ (R : Reader) (W : Type 0) where
  -- `queue` is what is in the channel `sender`, `params` what is in `sender_supp`.
  pub record State : Type 0 where
    pub worker : Worker R
    pub caller : Caller
    pub queue : List Str
    pub params : Option Params
    pub writer : W

  abbrev pub is_ended : Worker R → Bool
  is_ended ended = true
  is_ended _ = false

  -- The state where the threads start.
  unfoldable pub spawned : R.Rd → W → State
  spawned r w = record {
    worker = heads r;
    caller = wants_head;
    queue = [];
    params = none;
    writer = w;
  }
