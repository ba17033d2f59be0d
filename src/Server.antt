-- ===== src/Server.antt =====
-- src/chen/server: authentication, roles and rate limits of the HTTP API, and its routes.
pub mod Auth
pub mod RateLimit
pub mod App
pub mod Garage
pub mod Messages
pub mod Routes
