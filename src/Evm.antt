-- ===== src/Evm.antt =====
-- The wire vocabulary of the guest (evm-compat/js/src).
pub mod Addresses
pub mod Nonces
pub mod Types
pub mod External
pub mod Encoding
pub mod CrossDomain
