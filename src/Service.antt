-- ===== src/Service.antt =====
-- service.rs, the node's half of the program.
pub mod Slices
pub mod Calibration
pub mod Import
pub mod Export
pub mod Blocks
pub mod Ranges
pub mod Feeding
pub mod Transfer
pub mod Ingest
pub mod Bitmaps
