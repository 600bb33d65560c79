-- ===== src/Matching.antt =====
-- The limit order book of include/nts/matching and src/matching.
mod Tests
pub mod Types
pub mod Levels
pub mod Book
pub mod Engine
pub mod Sorted
pub mod Loops
pub mod Equivalence
pub mod Validity
pub mod Priority
pub mod Trades
pub mod Uncrossed
pub mod Reachable
