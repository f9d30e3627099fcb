-- ===== src/Worker.antt =====
-- The worker on a machine that runs cores: worker/voidz_worker of the repository.
pub mod Ports
pub mod Driver
pub mod Docker
pub mod Process
pub mod Reserved
pub mod Registry
pub mod Api
pub mod Backends
pub mod Service
pub mod Proxy
pub mod Status
