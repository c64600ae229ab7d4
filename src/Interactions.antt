-- ===== src/Interactions.antt =====
-- internal/interactions: the lifecycle (State), the tables (Store), the service (Service) and what
-- they guarantee.
pub mod State
pub mod Store
pub mod Input
pub mod Service
pub mod Create
pub mod Soundness
mod Examples
