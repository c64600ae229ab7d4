-- ===== src/Cases.antt =====
-- internal/cases/service.go: the tables (Store), the operations (Service), and what they guarantee.
pub mod Store
pub mod Service
pub mod Moving
pub mod Linking
pub mod Numbering
pub mod Opening
mod Examples
