-- ===== src/Discount.antt =====
-- Discounts in the names of channels: internal/discount/discount.go. A name is the list of its code
-- points. The regular expression is the deterministic matcher that it amounts to; float64 with its
-- operations is the record `Floats`.
pub mod Floats
pub mod Pattern
mod Matching
mod Leftmost
mod Answers
mod Range
mod Tests
mod Parse
unfoldable pub use Parse.*
