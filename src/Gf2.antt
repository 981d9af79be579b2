-- ===== src/Gf2.antt =====
-- gf2: polynomials over GF(2).
pub mod Poly64
pub mod Tests
