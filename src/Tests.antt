-- ===== src/Tests.antt =====
-- Small concrete worlds, and the theorems at them.
mod World
mod Codecs
mod Routing
mod Relay
mod Tables
mod Charges
mod Orders
mod Abi
mod Contracts
