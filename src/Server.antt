-- ===== src/Server.antt =====
-- internal/server: the event streams, the template helpers, the terminal and the HTTP server.
pub mod Events
pub mod Broker
pub mod Helpers
pub mod Funcs
pub mod Http
pub mod Stream
pub mod Terminal
pub mod Site
pub mod Handlers
pub mod Api
pub mod Middleware
pub mod Routes
pub mod Watch
pub mod Templates
pub mod Setup
