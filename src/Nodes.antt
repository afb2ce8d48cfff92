-- ===== src/Nodes.antt =====
-- internal/nodes: what is known of the nodes, and where it comes from.
pub mod Info
pub mod Smd
pub mod Discovery
pub mod Registry
pub mod Ids
pub mod Table
pub mod Examples
