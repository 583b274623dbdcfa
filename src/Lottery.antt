-- ===== src/Lottery.antt =====
-- The lottery: app/services/events/lottery_*_service.py.
pub mod Rounds
pub mod Draw
pub mod Entry
pub mod Preference
pub mod Atomic
pub mod Invariant
pub mod Ranking
