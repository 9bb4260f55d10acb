-- ===== src/Api.antt =====
-- api.go: what the HTTP endpoints answer. A request arrives with its parameters parsed: a number is
-- `none` where it is absent, no number, or negative.
pub mod History
pub mod Transactions
pub mod Queries
mod Tests
