-- ===== src/Node.antt =====
-- pkg/data/node.go: the node service, which stages a bottle in a directory and mounts it for a pod.
pub mod Server
pub mod Credentials
pub mod Stage
pub mod Publish
pub mod Unpublish
pub mod Unstage
pub mod Arguments
pub mod Paths
pub mod Lifecycle
pub mod Concurrent
