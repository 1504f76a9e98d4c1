-- ===== src/Cluster.antt =====
-- The cluster as the controllers see it: the objects, and the client of the Kubernetes API.
pub mod Objects
pub mod Client
pub mod Preserves
