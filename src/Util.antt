-- ===== src/Util.antt =====
-- Src/EtriPPSP/EtriPPSP/Common/Util.cpp: byte order and hexadecimal text.
pub mod Endian
pub mod Hex
mod Tests
