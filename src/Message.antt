-- ===== src/Message.antt =====
-- Src/EtriPPSP/EtriPPSP/PP: the messages of the peer protocol.
pub mod Buffer
pub mod Have
pub mod HandShake
pub mod Request
pub mod Cancel
pub mod Choke
pub mod Unchoke
pub mod PexReq
pub mod Ack
pub mod PexRes
pub mod Data
pub mod Integrity
pub mod Signals
pub mod Chunks
mod Tests
