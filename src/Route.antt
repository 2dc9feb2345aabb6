-- ===== src/Route.antt =====
-- internal/route/route.go: the IVF centroid set, cluster assignment, the content hash of a set
-- and its cache on disk.
pub mod Floats
pub mod Set
pub mod Assign
pub mod Version
pub mod Cache
