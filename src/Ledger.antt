-- ===== src/Ledger.antt =====
-- The journaled ledger (app/src/ledger.ts): the accounts drive over a store that records the
-- before-image of each write, and the RAM state that shadows it.
pub mod Types
pub mod Journal
pub mod Operations
