-- ===== src/Request.antt =====
-- The requests of the database server: the attributes of sql.go and package.go, the request
-- template, and the build functions of sql.go, tx.go, package.go, call_result_sets.go,
-- clientinfo.go and sqlerror_text.go.
pub mod Attributes
pub mod Statements
pub mod Build
pub mod Framing
pub mod Calls
pub mod Framed
pub mod Carried
pub mod Built
pub mod Read
