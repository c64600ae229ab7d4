-- ===== src/Comms.antt =====
-- internal/comms: the interface to the interactions (Core), the processor of provider events
-- (Processor) and the consumer of the ledger (Consumer).
pub mod Core
pub mod Processor
pub mod Consumer
pub mod Draining
mod Examples
