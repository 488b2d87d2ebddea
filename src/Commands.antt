-- ===== src/Commands.antt =====
-- cmd/rcl/commands: what the command line asks of containerd.
pub mod Fetch
pub mod Delete
pub mod Mount
pub mod Labels
pub mod Run
pub mod Client
