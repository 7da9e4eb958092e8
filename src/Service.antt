-- ===== src/Service.antt =====
-- internal/service: what the dashboard asks of the Docker daemon through the cache.
pub mod Groups
pub mod Search
pub mod Detail
pub mod Listing
pub mod Host
pub mod Asked
