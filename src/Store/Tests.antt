-- ===== src/Store/Tests.antt =====
-- Runs of internal/store at concrete inputs.
pub mod Encoding
mod Samples
mod Delivery
mod Answering
mod Sessions
