-- ===== src/Nodes/Methods.antt =====
-- That the methods of the registry (nodes.py) take the steps they promise.
pub mod Rules
pub mod OfNodes
pub mod OfRegistration
pub mod OfPorts
pub mod OfPlacement
pub mod OfCameras
pub mod OfMoves
pub mod OfSwitches
