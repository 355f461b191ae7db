-- ===== src/Response.antt =====
-- src/response.rs: a response's status and headers, and what they say of its body.
pub mod Tests
pub mod Fields
pub mod Code
pub mod StatusLine
pub mod Find
pub mod Message
