-- ===== src/Examples.antt =====
-- Runs of the gateway on a small configuration, and the theorems at concrete inputs.
pub mod Setup
pub mod Serving
pub mod Requests
pub mod Versions
pub mod Clients
pub mod Exchanges
pub mod Sessions
pub mod Systems
pub mod Lists
pub mod Providers
pub mod Processes
