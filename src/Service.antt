-- ===== src/Service.antt =====
-- `Service` of app/packages/server/src/radium226/vpn_passthrough/server/service.py.
pub mod State
pub mod Backends
pub mod Setup
pub mod Ledger
pub mod Tunnels
pub mod Processes
pub mod Rebinding
