-- ===== src/FileStore.antt =====
-- aritfact/content/file: the file store that a layer's files are pushed to.
pub mod Host
pub mod Archive
pub mod Store
pub mod Read
pub mod Push
pub mod Add
