-- ===== src/Rsec16.antt =====
-- rsec16: the Reed-Solomon coder over GF(2^16).
pub mod Matrix
pub mod Coder
pub mod Reconstruct
pub mod ParityMatrix
pub mod Tests
