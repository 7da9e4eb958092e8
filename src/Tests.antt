-- ===== src/Tests.antt =====
-- The theorems at concrete inputs.
mod Data
mod Docker
mod Cache
mod Service
mod Listing
mod Server
mod Web
mod Requests
mod Loops
mod Platform
mod Programs
mod Streams
