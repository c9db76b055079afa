-- ===== src/Http.antt =====
-- The HTTP interface (internal/api, internal/httputil): who a request comes from, and the parameters
-- that lists are read with.
pub mod Auth
pub mod Paging
mod Tests
