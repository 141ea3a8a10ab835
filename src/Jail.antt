-- ===== src/Jail.antt =====
-- class Jail of src/jail.cpp: which requests of a client are served, and what they do with its task.
pub mod Paths
pub mod Limits
pub mod Access
pub mod Monitoring
pub mod Commands
