-- ===== src/Program.antt =====
-- Src/EtriPPSP/EtriPPSP/main.cpp: the arguments, the configuration and the start of the program.
pub mod Config
pub mod Arguments
pub mod Main
pub mod Launch
mod Tests
