-- ===== src/Customers.antt =====
-- internal/customers/service.go: the identifiers of a customer and their normal form (Identifiers),
-- the operations over the tables of migration 0002 (Service), and what holds of them.
pub mod Identifiers
pub mod Service
pub mod Normal
pub mod Rows
pub mod Creating
pub mod Finding
pub mod Resolving
mod Examples
