-- ===== src/Netlist.antt =====
-- The dataflow netlist `DFnetlist_Impl` (Buffers/src/DFnetlist.h and DFnetlist.cpp): its data, its
-- operations, and the invariant that they keep.
pub mod Types
pub mod Names
pub mod Channels
pub mod Ports
pub mod Blocks
pub mod Attributes
pub mod PortAttributes
pub mod Invariant
pub mod Safety
pub mod Reach
mod Tests
