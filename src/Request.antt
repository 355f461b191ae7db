-- ===== src/Request.antt =====
-- src/request.rs: what a request is made of, the text that is sent, and the redirect policy.
mod Tests
pub mod Auth
pub mod Redirect
pub mod Raw
pub mod Client
pub mod Send
pub mod Limit
pub mod Follows
pub mod Laws
pub mod Threads
