-- ===== src/Notifier.antt =====
-- The push to a Feishu robot: internal/notifier/feishu.go. Times are Unix seconds, and a call reads the
-- clock once, each post apart. The HTTP client, HMAC with Base64 and URL escapes, JSON in both directions,
-- the upper and lower case of a text and the format of a time are arguments; a write to the log is left
-- out.
pub mod Cards
pub mod Sending
mod Attempts
mod Delivery
mod Tests
