-- ===== src/Tree.antt =====
-- Src/EtriPPSP/EtriPPSP/HashTree.cpp: the Merkle tree over the chunks.
pub mod Sibling
pub mod Dict
pub mod Sha
pub mod State
pub mod Check
pub mod Send
pub mod Peaks
pub mod Make
pub mod Tests
