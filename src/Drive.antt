-- ===== src/Drive.antt =====
-- The accounts drive (accounts-drive/js/src/drive.ts), part by part.
pub mod Types
pub mod Config
pub mod Table
pub mod Registry
pub mod Accounts
pub mod Balances
pub mod Format
pub mod Frame
