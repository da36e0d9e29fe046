-- ===== src/Tests.antt =====
-- Tests of the program's parts, and the theorems at concrete inputs.
mod Memory
mod Tables
mod Payments
mod Orders
mod Circuit
mod Clusters
mod Server
mod Caches
mod Logins
mod Entities
mod Backends
mod Histories
mod Workers
mod Queues
mod Fallbacks
