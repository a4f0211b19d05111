-- ===== src/Billing/Cached.antt =====
-- The cached totals of the vendors: internal/billing/upstream_cache.go and upstream_summary_tick.go over
-- the table of internal/dal/cache_upstream_summary.go. A time is in Unix seconds. The statement of a
-- vendor over a period, CalcUpstreamStatement, is an argument, as are the bounds of the months in
-- Asia/Shanghai. An int64 count is its residue, and is not negative.
pub mod Rows
pub mod Ticks
pub mod Overview
mod Rounds
mod Freshness
mod Sorting
mod Tests
