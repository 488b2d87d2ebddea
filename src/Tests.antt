-- ===== src/Tests.antt =====
-- Runs on small inputs, and the theorems at inputs that meet their hypotheses.
pub mod Memory
pub mod Disk
mod Files
mod Adding
mod Extraction
mod Snapshots
mod Texts
pub mod Layers
mod Overlay
pub mod Settings
pub mod Running
pub mod Starting
mod Together
