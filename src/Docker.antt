-- ===== src/Docker.antt =====
-- internal/docker: labels, the domain types, and the conversions from the Docker API.
pub mod Labels
pub mod Repo
pub mod Ports
pub mod Models
pub mod Detail
pub mod Inspect
pub mod Client
