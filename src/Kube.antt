-- ===== src/Kube.antt =====
-- kube/: the node's view of the API server.
pub mod Retry
pub mod Lock
pub mod Node
pub mod Client
