-- ===== src/Options.antt =====
-- aritfact/options/options.go: the process part of a container's spec from an image's configuration.
pub mod Env
pub mod Config
pub mod Signal
