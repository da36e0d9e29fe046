-- ===== src/Domain.antt =====
-- pkg/domain: the entities, their constructors and their methods.
pub mod Base
pub mod Balance
pub mod Transaction
pub mod Scheduled
pub mod Limit
pub mod User
