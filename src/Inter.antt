-- ===== src/Inter.antt =====
-- The data types of the packages inter and inter/iblockproc.
pub mod GasPowerLeft
pub mod Llr
pub mod Mps
pub mod Event
pub mod BlockProc
pub mod Serializer
