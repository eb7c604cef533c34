-- ===== src/Tests.antt =====
-- Runs of the definitions and the theorems at concrete inputs.
mod Routing
mod Rules
mod Requests
mod Indexes
mod Runtimes
mod Cdns
mod Tenants
mod Refreshes
mod Services
