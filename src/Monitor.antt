-- ===== src/Monitor.antt =====
-- Alerts: internal/monitor/alert_engine.go.
pub mod Conditions
pub mod Lifecycle
pub mod Alerts
pub mod Health
pub mod Evaluation
