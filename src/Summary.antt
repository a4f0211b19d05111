-- ===== src/Summary.antt =====
-- The minute summaries of the gateway's logs: internal/sync/sync_logs_summary.go with the two tables of
-- internal/dal/cache_logs_summary.go and cache_logs_summary_by_model.go. A query is a function of the
-- rows of `logs` at that time; its figures are not negative and its sums stay below 2 ^ 63. Whether each
-- call succeeds is in `Calls`; a statement that fails leaves its table as it was. The columns id,
-- created_at and updated_at are left out.
pub mod Rows
pub mod Sync
mod Minutes
mod Ticks
mod Tests
