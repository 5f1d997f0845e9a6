-- ===== src/App.antt =====
-- The guest application (app/src): handlers, and the router that runs them.
pub mod World
pub mod Handlers
pub mod FacadeView
pub mod Config
pub mod CrossDomain
pub mod L1Block
pub mod Registry
pub mod Parse
pub mod Router
pub mod Boot
pub mod Inspect
pub mod Contract
pub mod Application
