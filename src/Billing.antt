-- ===== src/Billing.antt =====
-- internal/billing and what it rests on: export tasks, costs and statements.
pub mod Export
pub mod Upstream
mod Tests
pub mod Cached
