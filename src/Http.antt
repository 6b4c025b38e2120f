-- ===== src/Http.antt =====
-- http_server: the parser of requests, and the path that a request asks for.
pub mod RequestParser
pub mod RequestHandler
