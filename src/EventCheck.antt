-- ===== src/EventCheck.antt =====
-- The package eventcheck and those below it.
pub mod Basic
pub mod Epoch
pub mod GasPower
pub mod Checkers
