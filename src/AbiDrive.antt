-- ===== src/AbiDrive.antt =====
-- The ABI drive (abi-drive/js/src/index.ts): a registry of contracts and of their ABIs in a byte
-- store, which is written at the first boot.
pub mod Types
pub mod Records
pub mod Format
pub mod Slot
pub mod Holds
pub mod Header
pub mod Registry
pub mod Scan
pub mod Added
pub mod Grown
pub mod Refinement
pub mod Fresh
pub mod Promise
