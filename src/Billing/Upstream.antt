-- ===== src/Billing/Upstream.antt =====
-- The statement of a vendor: internal/billing/upstream_cost.go. An int64 is its residue modulo 2 ^ 64, so
-- that sums wrap around as they do there; float64 with its operations, JSON decoding and the format of a
-- day are the record `Amounts`.
pub mod Amounts
pub mod Models
mod Grouping
mod Tests
mod Search
mod Answers
mod Counts
mod Groups
mod Statements
unfoldable pub use Statements.*
