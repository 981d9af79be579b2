-- ===== src/Gf2p16/Matrix/Function.antt =====
-- NewMatrixFromFunction gives a matrix of the function's values.
use gopar.Common.{
  ℕ, zero, suc, ◌+◌, ◌*◌, ◌/◌, ◌%◌, ◌<◌, ◌≤◌, ◌≡◌, refl, ap, ◌∙◌, ◌==◌, ◌||◌, not, false, some,
  length, get_or, arith,
}
use mathlib.Core.Path.{ap₂}
use native.Mathlib.Nat.{
  mul-add-mod_self_right, mul-add-div_right, div-eq_of_lt, mod-eq_of_lt, mul-le-mul_right,
}
use gopar.Gf2p16.Algebra.{Field}
use gopar.Gf2p16.Matrix.{Matrix, elem, fill, new_matrix_from_slice, new_matrix_from_function}
use gopar.Gf2p16.Matrix.Solutions.{HasShape}

module _ {F : Type 0} where
  length-fill : (n p c : ℕ) (fn : ℕ → ℕ → F) → length (fill n p c fn) ≡ n
  unfolding fill
  length-fill zero p c fn = refl
  length-fill (suc n) p c fn = ap suc (length-fill n (p + 1) c fn)

  get_or-fill :
      (n p c k : ℕ) (fn : ℕ → ℕ → F) (d : F)
      → k < n
      → get_or (fill n p c fn) k d ≡ fn ((p + k) / c) ((p + k) % c)
  unfolding fill
  get_or-fill zero p c k fn d h = absurd (omega arith)
  get_or-fill (suc n) p c zero fn d h = ap (λ (q : ℕ). fn (q / c) (q % c)) (omega arith)
  get_or-fill (suc n) p c (suc k) fn d h =
      get_or-fill n (p + 1) c k fn d (omega arith)
      ∙ ap (λ (q : ℕ). fn (q / c) (q % c)) (omega arith)

  pub new_matrix_from_function-some :
      (r c : ℕ) (fn : ℕ → ℕ → F)
      → 0 < r
      → 0 < c
      → new_matrix_from_function r c fn
        ≡ some (record { rows = r; columns = c; elements = fill (r * c) 0 c fn })
  unfolding new_matrix_from_function new_matrix_from_slice
  new_matrix_from_function-some r c fn hr hc =
      let no_panic : (r == 0 || c == 0) ≡ false = ground arith in
      let count : length (fill (r * c) 0 c fn) ≡ r * c = length-fill (r * c) 0 c fn in
      let fits : (not (length (fill (r * c) 0 c fn) == r * c)) ≡ false = ground arith in
      rw (no_panic, fits) refl

-- The row and the column of an index.
index-mod : (i j c : ℕ) → j < c → (i * c + j) % c ≡ j
index-mod i j c h = mul-add-mod_self_right i c j ∙ mod-eq_of_lt h

index-div : (i j c : ℕ) → j < c → (i * c + j) / c ≡ i
index-div i j c h =
    let pos : 0 < c = omega arith in mul-add-div_right pos i j ∙ omega (arith, div-eq_of_lt h)

module _ (K : Field) where
  open K use {F}

  pub new_matrix_from_function-elem :
      (r c : ℕ) (fn : ℕ → ℕ → F)
      → 0 < r
      → 0 < c
      → (m : Matrix F) × (new_matrix_from_function r c fn ≡ some m)
        × (HasShape r c m × ((i j : ℕ) → i < r → j < c → elem K m i j ≡ fn i j))
  unfolding elem
  new_matrix_from_function-elem r c fn hr hc =
      let count : length (fill (r * c) 0 c fn) ≡ r * c = length-fill (r * c) 0 c fn in
      (
        record { rows = r; columns = c; elements = fill (r * c) 0 c fn },
        new_matrix_from_function-some r c fn hr hc,
        (
          record { rows_eq = refl; columns_eq = refl; valid = record { area = count } },
          λ i j row col.
              let reach : suc i * c ≤ r * c = mul-le-mul_right c row in
              let next : suc i * c ≡ i * c + c = omega arith in
              get_or-fill (r * c) 0 c (i * c + j) fn K.zero (omega arith)
              ∙ ap₂ fn (ap (λ (n : ℕ). n / c) (omega arith) ∙ index-div i j c col)
                  (ap (λ (n : ℕ). n % c) (omega arith) ∙ index-mod i j c col),
        ),
      )
