-- ===== src/Nodes.antt =====
-- The registry of nodes and cameras: `InMemoryNodeStore` of nodes.py and what it calls.
pub mod Kinds
pub mod Data
pub mod Table
pub mod Checks
pub mod Ports
pub mod Store
pub mod Register
pub mod Lifecycle
pub mod Reconfigure
pub mod PortChange
pub mod Place
pub mod Camera
pub mod Move
pub mod Steps
pub mod Methods
pub mod Counts
pub mod Apart
pub mod Runs
pub mod Examples
