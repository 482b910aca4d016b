-- ===== src/Peer.antt =====
-- Src/EtriPPSP/EtriPPSP/PPCommon.h and PPServer.cpp: what a peer knows of itself and of others.
pub mod Supported
pub mod Info
mod Tests
