-- ===== src/Console.antt =====
-- The control plane: console/api/voidz_console of the repository.
pub mod RateLimit
pub mod ClientIp
pub mod Auth
pub mod Fleet
pub mod Quota
pub mod Reconcile
pub mod Presence
pub mod Devices
pub mod Workers
pub mod Deploy
pub mod Pipelines
pub mod Instances
pub mod Customers
