-- ===== src/Tests.antt =====
-- Runs of the model on concrete inputs, and each theorem at an input that meets its hypotheses.
mod Cache
mod Manifest
mod Tags
mod Catalog
mod Auth
mod Config
mod Links
mod Names
mod Client
mod Handlers
mod Images
mod Expand
mod Limiter
mod Tokens
mod Startup
mod Views
mod Visits
mod Display
