-- ===== src/Gf2p16/Matrix/Echelon.antt =====
-- The form of the left matrix through the two loops of the reduction.
use gopar.Common.{
  ℕ, zero, suc, ◌+◌, ◌<◌, ◌≤◌, ◌≡◌, ◌≢◌, sym, ap, ◌∙◌, arith, Bool-cases, inl, inr, some,
}
use native.Mathlib.Decide.{ℕ_discrete}
use gopar.Gf2p16.Algebra.{Field, add-zero, mul-zero, zero-mul}
use gopar.Gf2p16.Matrix.{Matrix, elem, swap_rows, Pair, find_pivot, clear, pivot_row}
use gopar.Gf2p16.Matrix.Operations.{
  swapped, elem-scale_row_self, elem-scale_row_ne, elem-add_scaled_row_self, elem-add_scaled_row_ne,
  elem-swap_rows,
}
use gopar.Gf2p16.Matrix.Solutions.{HasShape, swap_rows-HasShape}

module _ (K : Field) where
  open K use {
    F, zero as o, one, add, mul, inv, is_zero, is_zero_iff, add_self, mul_comm, one-mul, mul-inv,
  }

  -- The first `i` columns have ones on the diagonal and zeros below it.
  pub record IsEchelon (r i : ℕ) (m : Matrix F) : Type 0 where
    pub diagonal : (c : ℕ) → c < i → elem K m c c ≡ one
    pub below : (a c : ℕ) → c < i → c < a → a < r → elem K m a c ≡ o

  -- Three sums that the loops meet.
  pub zero_step : (t a b : F) → a ≡ o → b ≡ o → add a (mul t b) ≡ o
  zero_step t a b ea eb = rw (ea, eb, mul-zero K t) (add-zero K o)

  pub same_step : (t a b : F) → b ≡ o → add a (mul t b) ≡ a
  same_step t a b eb = rw (eb, mul-zero K t) (add-zero K a)

  pub clear_step : (t b : F) → b ≡ one → add t (mul t b) ≡ o
  clear_step t b eb = rw (eb, mul_comm t one, one-mul t) (add_self t)

  pub find_pivot_lem :
      (count j i : ℕ) (m : Matrix F) (k : ℕ)
      → find_pivot K count j i m ≡ some k
      → (j ≤ k) × (k < j + count) × (elem K m k i ≢ o)
  unfolding find_pivot
  find_pivot_lem zero j i m k e = cc
  find_pivot_lem (suc count) j i m k e = elim (Bool-cases (is_zero (elem K m j i))) [
    | inl z ↦
        let rest : find_pivot K count (j + 1) i m ≡ some k = ground arith in
        let (lo, hi, ne) = find_pivot_lem count (j + 1) i m k rest in (omega arith, omega arith, ne)
    | inr nz ↦
        let same : j ≡ k = ground arith in
        let ne : elem K m j i ≢ o = λ p. cc ((is_zero_iff (elem K m j i)).1 p) in
        (omega arith, omega arith, rw (← same) ne)
  ]

  module _ (r : ℕ) (s : Pair K) (h : HasShape r r s.left) where
    abbrev m : Matrix F
    m = s.left

    -- A step of an inner loop, on the left matrix.
    pub elem-clear_self :
        (i j k : ℕ)
        → i < r
        → j < r
        → k < r
        → elem K (clear K i j s).left j k ≡ add (elem K m j k) (mul (elem K m j i) (elem K m i k))
    unfolding clear
    elem-clear_self i j k hi hj hk = elim (Bool-cases (is_zero (elem K m j i))) [
      | inl e ↦ rw e (
          sym (
            ap (λ t. add (elem K m j k) (mul t (elem K m i k))) ((is_zero_iff (elem K m j i)).0 e)
            ∙ ap (add (elem K m j k)) (zero-mul K (elem K m i k))
            ∙ add-zero K (elem K m j k)))
      | inr e ↦ rw e (
          elem-add_scaled_row_self K m h.valid j i (omega (arith, h.rows_eq))
            (omega (arith, h.rows_eq)) (elem K m j i) k (omega (arith, h.columns_eq)))
    ]

    pub elem-clear_ne :
        (i j a k : ℕ)
        → i < r
        → j < r
        → k < r
        → a ≢ j
        → elem K (clear K i j s).left a k ≡ elem K m a k
    unfolding clear
    elem-clear_ne i j a k hi hj hk ne = elim (Bool-cases (is_zero (elem K m j i))) [
      | inl e ↦ rw e
      | inr e ↦ rw e (
          elem-add_scaled_row_ne K m h.valid j i (omega (arith, h.rows_eq))
            (omega (arith, h.rows_eq)) (elem K m j i) a k ne (omega (arith, h.columns_eq)))
    ]

    -- The pivot's row after the swap and the scaling.
    module _ (i j : ℕ) (hi : i < r) (le : i ≤ j) (hj : j < r) (good : IsEchelon r i m) where
      abbrev n : Matrix F
      n = swap_rows K m i j

      n_shape : HasShape r r n
      n_shape = swap_rows-HasShape K r r m h (λ k. o) i j hi hj

      elem-pivot_row_self :
          (k : ℕ)
          → k < r
          → elem K (pivot_row K i j s).left i k ≡ mul (inv (elem K m j i)) (elem K m j k)
      unfolding pivot_row
      elem-pivot_row_self k hk =
          let from : swapped i j i ≡ j = ground arith in
          let moved = λ (c : ℕ) (hc : c < r).
            elem-swap_rows K m h.valid i j (omega (arith, h.rows_eq)) (omega (arith, h.rows_eq)) i c
              (omega (arith, h.columns_eq))
            ∙ ap (λ (b : ℕ). elem K m b c) from in
          elem-scale_row_self K n n_shape.valid i (omega (arith, n_shape.rows_eq))
            (inv (elem K n i i)) k (omega (arith, n_shape.columns_eq))
          ∙ ap (mul (inv (elem K n i i))) (moved k hk)
          ∙ ap (λ t. mul (inv t) (elem K m j k)) (moved i hi)

      elem-pivot_row_ne :
          (a k : ℕ)
          → a ≢ i
          → k < r
          → elem K (pivot_row K i j s).left a k ≡ elem K m (swapped i j a) k
      unfolding pivot_row
      elem-pivot_row_ne a k ne hk =
          elem-scale_row_ne K n n_shape.valid i (omega (arith, n_shape.rows_eq))
            (inv (elem K n i i)) a k ne (omega (arith, n_shape.columns_eq))
          ∙ elem-swap_rows K m h.valid i j (omega (arith, h.rows_eq)) (omega (arith, h.rows_eq)) a k
              (omega (arith, h.columns_eq))

      pub pivot_row-one : elem K m j i ≢ o → elem K (pivot_row K i j s).left i i ≡ one
      pivot_row-one ne =
          elem-pivot_row_self i hi
          ∙ mul_comm (inv (elem K m j i)) (elem K m j i)
          ∙ mul-inv (elem K m j i) ne

      pub pivot_row-IsEchelon : IsEchelon r i (pivot_row K i j s).left
      pivot_row-IsEchelon = record {
        diagonal = λ c hc.
            let same : swapped i j c ≡ c = ground arith in
            elem-pivot_row_ne c c (omega arith) (omega arith)
            ∙ ap (λ (b : ℕ). elem K m b c) same
            ∙ good.diagonal c hc;
        below = λ a c hc lt ha. elim (ℕ_discrete a i) [
          | yes e ↦
              ap (λ (b : ℕ). elem K (pivot_row K i j s).left b c) e
              ∙ elem-pivot_row_self c (omega arith)
              ∙ ap (mul (inv (elem K m j i))) (good.below j c hc (omega arith) hj)
              ∙ mul-zero K (inv (elem K m j i))
          | no ne ↦
              elem-pivot_row_ne a c ne (omega arith)
              ∙ good.below (swapped i j a) c hc (ground arith) (ground arith)
        ];
      }
