-- ===== src/Keymon.antt =====
-- The modifier-alone detector (pkg/keymon).
pub mod Machine
pub mod Monitor
mod Tests
