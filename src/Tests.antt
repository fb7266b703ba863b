-- ===== src/Tests.antt =====
-- Runs of the definitions on small inputs, and the theorems applied to them.
mod Transport
mod Protocol
mod Client
mod Server
mod Tunnels
mod Network
mod Processes
mod Ledger
mod Linux
mod Library
mod Pia
mod Commands
mod Waiting
