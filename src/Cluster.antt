-- ===== src/Cluster.antt =====
-- cluster.go and node.go: the cache of nodes, routing, the queue in front of a connection, and
-- what a node does with messages.
pub mod Groups
pub mod Cache
pub mod Route
pub mod Queue
pub mod Handshake
pub mod Dispatch
pub mod Send
