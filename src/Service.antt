-- ===== src/Service.antt =====
-- pkg/service.
pub mod Transaction
pub mod Ports
pub mod Scheduled
pub mod Batch
