-- ===== src/Bridge.antt =====
-- internal/bridge: what the bridge does with the store and the Telegram client.
pub mod Delivery
pub mod Claims
pub mod Exclusion
pub mod ClaimSteps
pub mod Holders
pub mod Settling
pub mod Settlement
pub mod Answers
pub mod Simulation
pub mod Rounds
pub mod Schedule
pub mod Tests
