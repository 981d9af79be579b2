-- ===== src/Gf2p16/Matrix/Solves.antt =====
-- A row operation on both matrices keeps every solution of the equations between them.
use gopar.Common.{ℕ, zero, suc, ◌+◌, ◌<◌, ◌≤◌, ◌≡◌, sym, ap, ◌∙◌, arith, Bool-cases, inl, inr}
use native.Mathlib.Decide.{ℕ_discrete}
use gopar.Gf2p16.Algebra.{Field}
use gopar.Gf2p16.Matrix.{
  elem, swap_rows, scale_row, add_scaled_row, Pair, clear, clear_rows, pivot_row,
}
use gopar.Gf2p16.Matrix.Solutions.{
  HasShape, apply, scale_row-HasShape, add_scaled_row-HasShape, swap_rows-HasShape,
  apply-scale_row_self, apply-scale_row_ne, apply-add_scaled_row_self, apply-add_scaled_row_ne,
  apply-swap_rows,
}
use gopar.Gf2p16.Matrix.Operations.{swapped}

module _ (K : Field) where
  open K use {F, zero as o, one, add, mul, inv, is_zero}

  -- The columns `x` and `y` solve the equations between two matrices with `r` rows.
  pub record Solves (r d : ℕ) (x y : ℕ → F) (s : Pair K) : Type 0 where
    pub left_shape : HasShape r r s.left
    pub right_shape : HasShape r d s.right
    pub equation : (a : ℕ) → a < r → apply K s.left x a ≡ apply K s.right y a

  module _ (r d : ℕ) (x y : ℕ → F) (s : Pair K) (h : Solves r d x y s) where
    abbrev scaled : ℕ → F → Pair K
    scaled i a = record { left = scale_row K s.left i a; right = scale_row K s.right i a }

    scaled-Solves : (i : ℕ) (a : F) → i < r → Solves r d x y (scaled i a)
    scaled-Solves i a hi = record {
      left_shape = scale_row-HasShape K r r s.left h.left_shape x i a hi;
      right_shape = scale_row-HasShape K r d s.right h.right_shape y i a hi;
      equation = λ b hb. elim (ℕ_discrete b i) [
        | yes e ↦ rw e (
            apply-scale_row_self K r r s.left h.left_shape x i a hi
            ∙ ap (mul a) (h.equation i hi)
            ∙ sym (apply-scale_row_self K r d s.right h.right_shape y i a hi))
        | no ne ↦
            apply-scale_row_ne K r r s.left h.left_shape x i b a hi ne
            ∙ h.equation b hb
            ∙ sym (apply-scale_row_ne K r d s.right h.right_shape y i b a hi ne)
      ];
    }

    abbrev added : ℕ → ℕ → F → Pair K
    added i j a = record {
      left = add_scaled_row K s.left i j a;
      right = add_scaled_row K s.right i j a;
    }

    pub added-Solves : (i j : ℕ) (a : F) → i < r → j < r → Solves r d x y (added i j a)
    added-Solves i j a hi hj = record {
      left_shape = add_scaled_row-HasShape K r r s.left h.left_shape x i j a hi hj;
      right_shape = add_scaled_row-HasShape K r d s.right h.right_shape y i j a hi hj;
      equation = λ b hb. elim (ℕ_discrete b i) [
        | yes e ↦ rw e (
            apply-add_scaled_row_self K r r s.left h.left_shape x i j a hi hj
            ∙ ap (λ t. add t (mul a (apply K s.left x j))) (h.equation i hi)
            ∙ ap (λ t. add (apply K s.right y i) (mul a t)) (h.equation j hj)
            ∙ sym (apply-add_scaled_row_self K r d s.right h.right_shape y i j a hi hj))
        | no ne ↦
            apply-add_scaled_row_ne K r r s.left h.left_shape x i j b a hi hj ne
            ∙ h.equation b hb
            ∙ sym (apply-add_scaled_row_ne K r d s.right h.right_shape y i j b a hi hj ne)
      ];
    }

    abbrev exchanged : ℕ → ℕ → Pair K
    exchanged i j = record { left = swap_rows K s.left i j; right = swap_rows K s.right i j }

    exchanged-Solves : (i j : ℕ) → i < r → j < r → Solves r d x y (exchanged i j)
    exchanged-Solves i j hi hj = record {
      left_shape = swap_rows-HasShape K r r s.left h.left_shape x i j hi hj;
      right_shape = swap_rows-HasShape K r d s.right h.right_shape y i j hi hj;
      equation = λ b hb.
          apply-swap_rows K r r s.left h.left_shape x i j b hi hj
          ∙ h.equation (swapped i j b) (ground arith)
          ∙ sym (apply-swap_rows K r d s.right h.right_shape y i j b hi hj);
    }

  -- The steps of the two loops.
  module _ (r d : ℕ) (x y : ℕ → F) where
    pub clear-Solves :
        (i j : ℕ) (s : Pair K) → i < r → j < r → Solves r d x y s → Solves r d x y (clear K i j s)
    unfolding clear
    clear-Solves i j s hi hj h = elim (Bool-cases (is_zero (elem K s.left j i))) [
      | inl e ↦ rw e h
      | inr e ↦ rw e (added-Solves r d x y s h j i (elem K s.left j i) hj hi)
    ]

    pub clear_rows-Solves :
        (count j i : ℕ) (s : Pair K)
        → i < r
        → j + count ≤ r
        → Solves r d x y s
        → Solves r d x y (clear_rows K count j i s)
    unfolding clear_rows
    clear_rows-Solves zero j i s hi hj h = h
    clear_rows-Solves (suc count) j i s hi hj h =
        clear_rows-Solves count (j + 1) i (clear K i j s) hi (omega arith)
          (clear-Solves i j s hi (omega arith) h)

    pub pivot_row-Solves :
        (i j : ℕ) (s : Pair K)
        → i < r
        → j < r
        → Solves r d x y s
        → Solves r d x y (pivot_row K i j s)
    unfolding pivot_row
    pivot_row-Solves i j s hi hj h =
        scaled-Solves r d x y (exchanged r d x y s h i j) (exchanged-Solves r d x y s h i j hi hj) i
          (inv (elem K (swap_rows K s.left i j) i i)) hi
