-- ===== src/Server.antt =====
-- internal/server: the gRPC service over a backend.
pub mod Types
pub mod Wiring
pub mod Embed
pub mod Centroids
pub mod Health
pub mod Installs
pub mod Methods
pub mod Service
pub mod History
