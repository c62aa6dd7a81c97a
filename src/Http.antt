-- ===== src/Http.antt =====
-- src/http: the parser of requests, the router and the handler of a connection.
pub mod Parser
pub mod Router
pub mod Handler
pub mod Routes
