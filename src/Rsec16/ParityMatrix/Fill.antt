-- ===== src/Rsec16/ParityMatrix/Fill.antt =====
-- A matrix from a function that does not panic.
use gopar.Common.{
  ℕ, zero, suc, ◌+◌, ◌*◌, ◌/◌, ◌%◌, ◌<◌, ◌≤◌, ◌≡◌, refl, ◌==◌, ◌||◌, false, Option, some, arith,
}
use native.Mathlib.Nat.{mod-lt, div-lt_iff_lt-mul}
use gopar.Gf2p16.Matrix.{fill, new_matrix_from_function}
use gopar.Rsec16.ParityMatrix.{try_fill, try_matrix_from_function}

module _ {F : Type 0} (r c : ℕ) (fn : ℕ → ℕ → Option F) (g : ℕ → ℕ → F) (pos : 0 < c)
    (values : (i j : ℕ) → i < r → j < c → fn i j ≡ some (g i j)) where
  try_fill-fill : (n p : ℕ) → p + n ≤ r * c → try_fill n p c fn ≡ some (fill n p c g)
  unfolding try_fill fill
  try_fill-fill zero p h = refl
  try_fill-fill (suc n) p h =
      let row : p / c < r = (div-lt_iff_lt-mul pos).1 (omega arith) in
      let here = values (p / c) (p % c) row (mod-lt p pos) in
      rw (here, try_fill-fill n (p + 1) (omega arith), try_fill)

  pub try_matrix_from_function_lem :
      0 < r → try_matrix_from_function r c fn ≡ new_matrix_from_function r c g
  unfolding try_matrix_from_function new_matrix_from_function
  try_matrix_from_function_lem hr =
      let no_panic : (r == 0 || c == 0) ≡ false = ground arith in
      rw (no_panic, try_fill-fill (r * c) 0 (omega arith), try_matrix_from_function)
