-- ===== src/Node.antt =====
-- node/src: the node.
pub mod ChainSpec
pub mod Service
pub mod Command
