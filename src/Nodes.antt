-- ===== src/Nodes.antt =====
-- executors/node: the nodes that executors run on, as the registry keeps them.
pub mod Records
pub mod Rendering
pub mod Checks
pub mod Registry
