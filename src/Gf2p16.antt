-- ===== src/Gf2p16.antt =====
-- gf2p16: the field GF(2^16).
pub mod T
pub mod Algebra
pub mod Element
pub mod Slice
pub mod Tests
pub mod Matrix
