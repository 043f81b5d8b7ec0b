-- ===== src/Node.antt =====
-- R2SonicNode (r2sonic/src/r2sonic_node.cpp, r2sonic/include/r2sonic/r2sonic_node.hpp).
pub mod MsgMap
pub mod Table
pub mod Ros
pub mod Parameters
pub mod Commands
pub mod Publish
pub mod Worker
pub mod Threads
pub mod Run
pub mod Receiver
