-- ===== src/Registry.antt =====
-- internal/registry: the client of one registry.
pub mod Cache
pub mod Manifest
pub mod Tags
pub mod Challenges
pub mod Auth
pub mod Names
pub mod Paging
pub mod Client
pub mod Images
pub mod TokenService
pub mod Options
