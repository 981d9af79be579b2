-- ===== src/Par1.antt =====
-- par1: the volumes of the PAR1 format.
pub mod Header
pub mod FileEntry
pub mod Volume
pub mod Tests
