-- ===== src/Tests.antt =====
-- Concrete runs, and the theorems at concrete inputs.
mod Frames
mod Connections
mod Redirectors
mod Sockets
mod Daemons
mod Helpers
mod Tasks
mod Jails
mod Configurations
mod Requests
mod Documents
mod Texts
