-- ===== src/Lib.antt =====
-- http_req, an HTTP client: its URIs, requests, responses, the chunked decoder and the
-- stream layer, as functions, with the theorems about them.
--
-- How the parts interact. `request::Request::send` (src/request.rs) opens a stream (src/stream.rs)
-- to the host of a `Uri` (src/uri.rs), writes the text of its `RequestMessage`, and a thread reads
-- the answer: first the head, which becomes a `Response` (src/response.rs), then the body, through a
-- `ChunkReader` (src/chunked.rs) if it is chunked. A redirect starts a new request to the location.
--
-- Files.
--   Prelude, Text   what all parts share: numbers, lists, options; Rust's `str` as the list of its
--                   UTF-8 bytes, with the slices that panic, `find`, `trim`, `lines`, `splitn`,
--                   the parsing of unsigned integers and `from_utf8`.
--   Error           src/error.rs: the error types; `Outcome` is a `Result` that may also be a panic;
--                   From has the conversions that `?` makes.
--   Uri             src/uri.rs: Auth (`Authority`), Parse (`Uri::try_from`), Access (the accessors and
--                   `Display`), Relative (`from_relative`), Spaces (`remove_spaces`); Chunks, Valid,
--                   Panics, Total, Hidden and Joined hold what is proved; Spans says where a text
--                   stands in another, Written, Parsed, Auth/Written, Auth/Bracketed and Auth/Whole
--                   are about URIs and authorities that are written from their parts, Refused
--                   and Auth/Refused about the texts that are refused, Fine about the steps that
--                   never fail.
--   Reader          `std::io::BufReader`: the operations that are used, as an interface with laws,
--                   and a buffered reader over a list of reads that fills it.
--   Chunked         src/chunked.rs: `ChunkReader` over that interface, Line (the line and size
--                   parsers), Digits (the hexadecimal digits); Stream says what the encoding is,
--                   States where a reader stands in it; Rounds, Decode and Whole follow one
--                   round, one read and the whole stream;
--                   Stall is about truncated streams, Refused about errors.
--   Method          `Method` and `HttpVersion` of src/request.rs.
--   Response        src/response.rs: Code (`StatusCode`), StatusLine (`Status`), Fields (`Headers`; Order is
--                   about the order of insertion), Find (`find_slice`), Message (`Response`; Total is
--                   about its panics).
--   Stream          src/stream.rs: Connect (`connect_with_timeout`), Open (`Stream::connect`,
--                   `try_to_https`), Deadline (`execute_with_deadline`), Receive (`ThreadReceive`),
--                   Send (`ThreadSend::send_all`), Head (`read_head`).
--   Tls             src/tls.rs: `Conn`, and `Config` for the features `native-tls` (Native) and
--                   `rust-tls` (Rustls), each of which fills the interface `TlsLayer` that Stream uses.
--   Request         src/request.rs: Auth (`Authentication`), Redirect (`RedirectPolicy`), Raw
--                   (`RequestMessage`), Client (`Request`), Send (`Request::send`, `get`, `head`,
--                   `post`), Limit (how many requests a redirect limit allows),
--                   Follows (the request behind a redirect).
--                   Threads is what `send` does behind the request message: the state of its two
--                   threads and the two channels, Steps what each thread does next, Bodies what
--                   `send_all` reads, Invariant what holds between the steps, Working and Serving that
--                   each thread keeps it, Going and Laws what follows for all runs, Written for
--                   a head that is written; Results is about any stream, also one with faults, and
--                   Played runs the threads by a schedule.
--
-- Conventions. A `usize` is a number below 2^64, a `u16` one below 2^16; the checks that keep them so
-- are in the definitions. Accessors of `Uri` give an `Option` whose `none` is a panic. Loops without
-- a bound of their own (`ChunkReader::read`, `execute_with_deadline`, `send_all`, `send`) take
-- the number of rounds as an argument, the fuel, and say when it was not enough. The loops of the
-- buffered reader have fuel of their own, one round for each byte and each read that is left, of
-- which a round that is not the last takes one; `decimal` has a round for each unit of its number.
--
-- Parameters. The equality of header keys of the unicase crate (`same`), the base64 encoder
-- (`encode`), the order in which a hash map is visited (`iter`), sockets, resolver and the
-- reading thread as seen from its channels (`Net`), the TLS libraries (`TlsStream`, `NativeTls`,
-- `RustTls`).
--
-- The threads. A step of Threads is what a thread does between two operations on a channel or the
-- stream, so every order of the steps stands for a schedule; `send_head`, a round of `send_all`,
-- `receive`, and a round of `receive_all` are one step each. A deadline is a step that may come at any
-- time, so no clock is needed. Threads/Laws is about answers that are complete: a
-- head that `from_head` takes, no redirect, a body that is properly chunked where it is chunked, on a
-- stream without faults. Threads/Results is about all streams, also those on which the reading
-- thread hangs. A reader that panics in the head is taken for one that hangs. In the
-- function `send`, which follows the redirects, the reading thread is seen from its channels only.
--
-- Not modelled: benches, examples and build files; what the derived traits print. The loop of
-- `Write::write_all` is the standard library's, a field of `Net`.
pub mod Prelude
pub mod Text
pub mod Error
pub mod Reader
pub mod Chunked
pub mod Uri
pub mod Method
pub mod Response
pub mod Request
pub mod Stream
pub mod Tls
