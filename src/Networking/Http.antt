-- ===== src/Networking/Http.antt =====
-- networking/http: methods, queries, and the session that serves one connection.
pub mod Method
pub mod Query
pub mod Session
