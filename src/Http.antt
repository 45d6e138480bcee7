-- ===== src/Http.antt =====
-- http/src/http_parse.c: an HTTP request read from a stream, over the callbacks of http_parser.
pub mod Buffer
pub mod Request
pub mod Lookup
pub mod Query
pub mod Parse
mod Tests
