-- ===== src/Backend.antt =====
-- internal/backend: the llama-server child process, its life cycle and the embedding calls.
pub mod Types
pub mod Host
pub mod Keeps
pub mod Probe
pub mod Child
pub mod Lifecycle
pub mod Embed
pub mod Port
pub mod Locks
