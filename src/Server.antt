-- ===== src/Server.antt =====
-- internal/server: the HTTP layer between browsers and registries.
pub mod Catalog
pub mod Links
pub mod Compress
pub mod Handlers
pub mod Limiter
pub mod Startup
pub mod Views
pub mod Pages
pub mod Display
pub mod Visits
