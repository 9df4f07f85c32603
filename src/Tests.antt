-- ===== src/Tests.antt =====
-- Runs of the definitions and the theorems on concrete inputs.
pub mod Protocol
pub mod Commands
pub mod Server
pub mod Access
pub mod Lfs
pub mod Service
pub mod Accounts
pub mod Startup
pub mod Http
pub mod Relay
pub mod Programs
