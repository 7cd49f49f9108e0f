-- ===== src/Config.antt =====
-- The configuration and its validation: cmd/gateway/config.go.
pub mod Types
pub mod Validate
pub mod Routes
pub mod Claims
pub mod Accepted
pub mod Sound
pub mod Valid
