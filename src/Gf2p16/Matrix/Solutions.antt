-- ===== src/Gf2p16/Matrix/Solutions.antt =====
-- The product of a matrix with a column, before and after a row operation.
use gopar.Common.{ℕ, ◌<◌, ◌≡◌, ◌≢◌, ap, ◌∙◌, arith}
use gopar.Gf2p16.Algebra.{Field, sum, sum_ext, sum-add, sum-mul, add-mul}
use gopar.Gf2p16.Matrix.{Matrix, elem, with_row, swap_rows, scale_row, add_scaled_row}
use gopar.Gf2p16.Matrix.Rows.{IsMatrix}
use gopar.Gf2p16.Matrix.Operations.{
  swapped, scale_row-IsMatrix, elem-scale_row_self, elem-scale_row_ne, add_scaled_row-IsMatrix,
  elem-add_scaled_row_self, elem-add_scaled_row_ne, swap_rows-IsMatrix, elem-swap_rows,
}

-- A matrix with the given counts.
pub record HasShape {F : Type 0} (r c : ℕ) (m : Matrix F) : Type 0 where
  pub rows_eq : m.rows ≡ r
  pub columns_eq : m.columns ≡ c
  pub valid : IsMatrix m

module _ (K : Field) where
  open K use {F, zero as o, add, mul, mul_assoc}

  -- The entry `i` of the product of `m` and the column `x`.
  unfoldable pub apply : Matrix F → (ℕ → F) → ℕ → F
  apply m x i = sum K m.columns (λ k. mul (elem K m i k) (x k))

  module _ (r c : ℕ) (m : Matrix F) (h : HasShape r c m) (x : ℕ → F) where
    -- The two counts after an operation.
    pub scale_row-HasShape : (i : ℕ) (a : F) → i < r → HasShape r c (scale_row K m i a)
    unfolding scale_row with_row
    scale_row-HasShape i a hi = record {
      rows_eq = h.rows_eq;
      columns_eq = h.columns_eq;
      valid = scale_row-IsMatrix K m h.valid i (omega arith) a;
    }

    pub add_scaled_row-HasShape :
        (i j : ℕ) (a : F) → i < r → j < r → HasShape r c (add_scaled_row K m i j a)
    unfolding add_scaled_row with_row
    add_scaled_row-HasShape i j a hi hj = record {
      rows_eq = h.rows_eq;
      columns_eq = h.columns_eq;
      valid = add_scaled_row-IsMatrix K m h.valid i j (omega arith) (omega arith) a;
    }

    pub swap_rows-HasShape : (i j : ℕ) → i < r → j < r → HasShape r c (swap_rows K m i j)
    swap_rows-HasShape i j hi hj = record {
      rows_eq = swapped_rows;
      columns_eq = swapped_columns;
      valid = swap_rows-IsMatrix K m h.valid i j (omega arith) (omega arith);
    }
      where
        swapped_rows : (swap_rows K m i j).rows ≡ r
        swapped_rows = unfold swap_rows with_row in ground (arith, h.rows_eq)

        swapped_columns : (swap_rows K m i j).columns ≡ c
        swapped_columns = unfold swap_rows with_row in ground (arith, h.columns_eq)

    pub apply-scale_row_self :
        (i : ℕ) (a : F) → i < r → apply (scale_row K m i a) x i ≡ mul a (apply m x i)
    unfolding apply
    apply-scale_row_self i a hi =
        ap (λ (n : ℕ). sum K n (λ k. mul (elem K (scale_row K m i a) i k) (x k)))
          (omega (arith, (scale_row-HasShape i a hi).columns_eq, h.columns_eq))
        ∙ sum_ext K m.columns (λ k. mul (elem K (scale_row K m i a) i k) (x k))
            (λ k. mul a (mul (elem K m i k) (x k)))
            (λ k hk.
              ap (λ t. mul t (x k)) (elem-scale_row_self K m h.valid i (omega arith) a k hk)
              ∙ mul_assoc a (elem K m i k) (x k))
        ∙ sum-mul K m.columns a (λ k. mul (elem K m i k) (x k))

    pub apply-scale_row_ne :
        (i b : ℕ) (a : F) → i < r → b ≢ i → apply (scale_row K m i a) x b ≡ apply m x b
    unfolding apply
    apply-scale_row_ne i b a hi ne =
        ap (λ (n : ℕ). sum K n (λ k. mul (elem K (scale_row K m i a) b k) (x k)))
          (omega (arith, (scale_row-HasShape i a hi).columns_eq, h.columns_eq))
        ∙ sum_ext K m.columns (λ k. mul (elem K (scale_row K m i a) b k) (x k))
            (λ k. mul (elem K m b k) (x k))
            (λ k hk.
              ap (λ t. mul t (x k)) (elem-scale_row_ne K m h.valid i (omega arith) a b k ne hk))

    pub apply-add_scaled_row_self :
        (i j : ℕ) (a : F)
        → i < r
        → j < r
        → apply (add_scaled_row K m i j a) x i ≡ add (apply m x i) (mul a (apply m x j))
    unfolding apply
    apply-add_scaled_row_self i j a hi hj =
        ap (λ (n : ℕ). sum K n (λ k. mul (elem K (add_scaled_row K m i j a) i k) (x k)))
          (omega (arith, (add_scaled_row-HasShape i j a hi hj).columns_eq, h.columns_eq))
        ∙ sum_ext K m.columns (λ k. mul (elem K (add_scaled_row K m i j a) i k) (x k))
            (λ k. add (mul (elem K m i k) (x k)) (mul a (mul (elem K m j k) (x k))))
            (λ k hk.
              ap (λ t. mul t (x k))
                (elem-add_scaled_row_self K m h.valid i j (omega arith) (omega arith) a k hk)
              ∙ add-mul K (elem K m i k) (mul a (elem K m j k)) (x k)
              ∙ ap (add (mul (elem K m i k) (x k))) (mul_assoc a (elem K m j k) (x k)))
        ∙ sum-add K m.columns (λ k. mul (elem K m i k) (x k))
            (λ k. mul a (mul (elem K m j k) (x k)))
        ∙ ap (add (sum K m.columns (λ k. mul (elem K m i k) (x k))))
            (sum-mul K m.columns a (λ k. mul (elem K m j k) (x k)))

    pub apply-add_scaled_row_ne :
        (i j b : ℕ) (a : F)
        → i < r
        → j < r
        → b ≢ i
        → apply (add_scaled_row K m i j a) x b ≡ apply m x b
    unfolding apply
    apply-add_scaled_row_ne i j b a hi hj ne =
        ap (λ (n : ℕ). sum K n (λ k. mul (elem K (add_scaled_row K m i j a) b k) (x k)))
          (omega (arith, (add_scaled_row-HasShape i j a hi hj).columns_eq, h.columns_eq))
        ∙ sum_ext K m.columns (λ k. mul (elem K (add_scaled_row K m i j a) b k) (x k))
            (λ k. mul (elem K m b k) (x k))
            (λ k hk.
              ap (λ t. mul t (x k))
                (elem-add_scaled_row_ne K m h.valid i j (omega arith) (omega arith) a b k ne hk))

    pub apply-swap_rows :
        (i j b : ℕ) → i < r → j < r → apply (swap_rows K m i j) x b ≡ apply m x (swapped i j b)
    unfolding apply
    apply-swap_rows i j b hi hj =
        ap (λ (n : ℕ). sum K n (λ k. mul (elem K (swap_rows K m i j) b k) (x k)))
          (omega (arith, (swap_rows-HasShape i j hi hj).columns_eq, h.columns_eq))
        ∙ sum_ext K m.columns (λ k. mul (elem K (swap_rows K m i j) b k) (x k))
            (λ k. mul (elem K m (swapped i j b) k) (x k))
            (λ k hk.
              ap (λ t. mul t (x k))
                (elem-swap_rows K m h.valid i j (omega arith) (omega arith) b k hk))
