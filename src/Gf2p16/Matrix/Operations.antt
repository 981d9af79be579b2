-- ===== src/Gf2p16/Matrix/Operations.antt =====
-- swapRows, scaleRow and addScaledRow, element by element.
use gopar.Common.{
  ℕ, zero, suc, ◌<◌, ◌≡◌, ◌≢◌, refl, sym, ap, ◌∙◌, ◌==◌, if◌then◌else◌, List, [], ◌∷◌, length,
  get_or, arith, Bool-cases, inl, inr,
}
use native.Mathlib.Decide.{ℕ_discrete}
use gopar.Gf2p16.Algebra.{Field}
use gopar.Gf2p16.Matrix.{
  Matrix, elem, row, with_row, mul_slice, mul_and_add_slice, swap_rows, scale_row, add_scaled_row,
}
use gopar.Gf2p16.Matrix.Rows.{
  IsMatrix, length-row, get_or-row, with_row-IsMatrix, elem-with_row_self, elem-with_row_ne,
}

-- The row that swapRows puts in the place of `a`.
abbrev pub swapped : ℕ → ℕ → ℕ → ℕ
swapped i j a = if a == i then j else if a == j then i else a

module _ (K : Field) where
  open K use {F, zero as o, add, mul}

  pub length-mul_slice : (c : F) (xs : List F) → length (mul_slice K c xs) ≡ length xs
  unfolding mul_slice
  length-mul_slice c [] = refl
  length-mul_slice c (x ∷ xs) = ap suc (length-mul_slice c xs)

  pub get_or-mul_slice :
      (c : F) (xs : List F) (k : ℕ)
      → k < length xs
      → get_or (mul_slice K c xs) k o ≡ mul c (get_or xs k o)
  unfolding mul_slice
  get_or-mul_slice c [] k h = absurd (omega arith)
  get_or-mul_slice c (x ∷ xs) zero h = refl
  get_or-mul_slice c (x ∷ xs) (suc k) h = get_or-mul_slice c xs k (omega arith)

  pub length-mul_and_add_slice :
      (c : F) (xs ys : List F)
      → length xs ≡ length ys
      → length (mul_and_add_slice K c xs ys) ≡ length ys
  unfolding mul_and_add_slice
  length-mul_and_add_slice c [] ys h = refl
  length-mul_and_add_slice c (x ∷ xs) [] h = refl
  length-mul_and_add_slice c (x ∷ xs) (y ∷ ys) h =
      ap suc (length-mul_and_add_slice c xs ys (omega arith))

  pub get_or-mul_and_add_slice :
      (c : F) (xs ys : List F) (k : ℕ)
      → k < length xs
      → k < length ys
      → get_or (mul_and_add_slice K c xs ys) k o ≡ add (get_or ys k o) (mul c (get_or xs k o))
  unfolding mul_and_add_slice
  get_or-mul_and_add_slice c [] ys k h h' = absurd (omega arith)
  get_or-mul_and_add_slice c (x ∷ xs) [] k h h' = absurd (omega arith)
  get_or-mul_and_add_slice c (x ∷ xs) (y ∷ ys) zero h h' = refl
  get_or-mul_and_add_slice c (x ∷ xs) (y ∷ ys) (suc k) h h' =
      get_or-mul_and_add_slice c xs ys k (omega arith) (omega arith)

  module _ (m : Matrix F) (valid : IsMatrix m) where
    module _ (i : ℕ) (hi : i < m.rows) (c : F) where
      scaled_width : length (mul_slice K c (row K m i)) ≡ m.columns
      scaled_width = length-mul_slice c (row K m i) ∙ length-row K m valid i hi

      pub scale_row-IsMatrix : IsMatrix (scale_row K m i c)
      unfolding scale_row
      scale_row-IsMatrix = with_row-IsMatrix K m valid i hi (mul_slice K c (row K m i)) scaled_width

      pub elem-scale_row_self :
          (k : ℕ) → k < m.columns → elem K (scale_row K m i c) i k ≡ mul c (elem K m i k)
      unfolding scale_row
      elem-scale_row_self k h =
          elem-with_row_self K m valid i hi (mul_slice K c (row K m i)) scaled_width k h
          ∙ get_or-mul_slice c (row K m i) k (omega (arith, length-row K m valid i hi))
          ∙ ap (mul c) (get_or-row K m valid i hi k h)

      pub elem-scale_row_ne :
          (a k : ℕ) → a ≢ i → k < m.columns → elem K (scale_row K m i c) a k ≡ elem K m a k
      unfolding scale_row
      elem-scale_row_ne a k ne h =
          elem-with_row_ne K m valid i hi (mul_slice K c (row K m i)) scaled_width a k ne h

    module _ (d s : ℕ) (hd : d < m.rows) (hs : s < m.rows) (c : F) where
      abbrev added : List F
      added = mul_and_add_slice K c (row K m s) (row K m d)

      added_width : length added ≡ m.columns
      added_width =
          length-mul_and_add_slice c (row K m s) (row K m d)
            (length-row K m valid s hs ∙ sym (length-row K m valid d hd))
          ∙ length-row K m valid d hd

      pub add_scaled_row-IsMatrix : IsMatrix (add_scaled_row K m d s c)
      unfolding add_scaled_row
      add_scaled_row-IsMatrix = with_row-IsMatrix K m valid d hd added added_width

      pub elem-add_scaled_row_self :
          (k : ℕ)
          → k < m.columns
          → elem K (add_scaled_row K m d s c) d k ≡ add (elem K m d k) (mul c (elem K m s k))
      unfolding add_scaled_row
      elem-add_scaled_row_self k h =
          elem-with_row_self K m valid d hd added added_width k h
          ∙ get_or-mul_and_add_slice c (row K m s) (row K m d) k
              (omega (arith, length-row K m valid s hs)) (omega (arith, length-row K m valid d hd))
          ∙ ap (λ t. add t (mul c (get_or (row K m s) k o))) (get_or-row K m valid d hd k h)
          ∙ ap (λ t. add (elem K m d k) (mul c t)) (get_or-row K m valid s hs k h)

      pub elem-add_scaled_row_ne :
          (a k : ℕ) → a ≢ d → k < m.columns → elem K (add_scaled_row K m d s c) a k ≡ elem K m a k
      unfolding add_scaled_row
      elem-add_scaled_row_ne a k ne h = elem-with_row_ne K m valid d hd added added_width a k ne h

    module _ (i j : ℕ) (hi : i < m.rows) (hj : j < m.rows) where
      abbrev first : Matrix F
      first = with_row K m i (row K m j)

      first-IsMatrix : IsMatrix first
      first-IsMatrix = with_row-IsMatrix K m valid i hi (row K m j) (length-row K m valid j hj)

      first_shape : (first.rows ≡ m.rows) × (first.columns ≡ m.columns)
      unfolding with_row
      first_shape = (refl, refl)

      second_width : length (row K m i) ≡ first.columns
      second_width = length-row K m valid i hi ∙ sym first_shape.1

      elem-first : (a k : ℕ) → a ≢ j → k < m.columns → elem K first a k ≡ elem K m (swapped i j a) k
      elem-first a k ne h = elim (ℕ_discrete a i) [
        | yes at_i ↦
            let from : swapped i j a ≡ j = ground arith in
            ap (λ (n : ℕ). elem K first n k) at_i
            ∙ elem-with_row_self K m valid i hi (row K m j) (length-row K m valid j hj) k h
            ∙ get_or-row K m valid j hj k h
            ∙ ap (λ (n : ℕ). elem K m n k) (sym from)
        | no other ↦
            let from : swapped i j a ≡ a = ground arith in
            elem-with_row_ne K m valid i hi (row K m j) (length-row K m valid j hj) a k other h
            ∙ ap (λ (n : ℕ). elem K m n k) (sym from)
      ]

      pub swap_rows-IsMatrix : IsMatrix (swap_rows K m i j)
      unfolding swap_rows
      swap_rows-IsMatrix = elim (Bool-cases (i == j)) [
        | inl e ↦ rw e valid
        | inr e ↦ rw e (
            with_row-IsMatrix K first first-IsMatrix j (omega (arith, first_shape)) (row K m i)
              second_width)
      ]

      pub elem-swap_rows :
          (a k : ℕ) → k < m.columns → elem K (swap_rows K m i j) a k ≡ elem K m (swapped i j a) k
      unfolding swap_rows
      elem-swap_rows a k h = elim (Bool-cases (i == j)) [
        | inl e ↦
            let same : swapped i j a ≡ a = ground arith in
            rw e (ap (λ (n : ℕ). elem K m n k) (sym same))
        | inr e ↦ rw e (elim (ℕ_discrete a j) [
          | yes at_j ↦
              let from : swapped i j a ≡ i = ground arith in
              ap (λ (n : ℕ). elem K (with_row K first j (row K m i)) n k) at_j
              ∙ elem-with_row_self K first first-IsMatrix j (omega (arith, first_shape)) (row K m i)
                  second_width k (omega (arith, first_shape))
              ∙ get_or-row K m valid i hi k h
              ∙ ap (λ (n : ℕ). elem K m n k) (sym from)
          | no other ↦
              elem-with_row_ne K first first-IsMatrix j (omega (arith, first_shape)) (row K m i)
                second_width a k other (omega (arith, first_shape))
              ∙ elem-first a k other h
        ])
      ]
