-- ===== src/Applier.antt =====
-- aritfact/applier.go: a layer's content is written where the mounts of its snapshot say.
pub mod Mounts
pub mod Apply
pub mod Snapshots
