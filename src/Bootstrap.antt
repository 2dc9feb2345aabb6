-- ===== src/Bootstrap.antt =====
-- internal/bootstrap: the manifest, downloads, and the installation of the model.
pub mod Audit
pub mod Download
pub mod Ensure
pub mod Extract
pub mod Install
pub mod Progress
pub mod Layout
pub mod Licenses
pub mod Lock
pub mod Manifest
pub mod Model
