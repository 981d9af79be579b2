-- ===== src/Gf2p16/Matrix.antt =====
-- gf2p16/matrix.go: matrices stored row by row, their product and their reduction. The indices of
-- the loops stay in range, so the loops read by `elem`, which is `at` without its checks.
pub mod Rows
pub mod Function
pub mod Operations
pub mod Solutions
pub mod Solves
pub mod Echelon
pub mod Forward
pub mod Reduction
use gopar.Common.{
  ℕ, zero, suc, ◌+◌, ◌-◌, ◌*◌, ◌/◌, ◌%◌, ◌==◌, ltb, ◌&&◌, ◌||◌, not, if◌then◌else◌, true, false,
  Option, none, some, List, [], ◌∷◌, ◌++◌, length, get_or, take, drop,
}
use mathlib.Core.Option
use gopar.Gf2p16.Algebra.{Field}

-- Elements are stored in row-major order.
pub record Matrix (F : Type 0) : Type 0 where
  pub rows : ℕ
  pub columns : ℕ
  pub elements : List F

module _ {F : Type 0} where
  -- The slice that the two loops of NewMatrixFromFunction fill: from the index `p` on, with `n`
  -- elements left.
  unfoldable pub fill : ℕ → ℕ → ℕ → (ℕ → ℕ → F) → List F
  fill zero p columns fn = []
  fill (suc n) p columns fn = fn (p / columns) (p % columns) ∷ fill n (p + 1) columns fn

  unfoldable pub new_matrix_from_slice : ℕ → ℕ → List F → Option (Matrix F)
  new_matrix_from_slice r c es =
      if r == 0 || c == 0
      then none
      else if not (length es == r * c)
      then none
      else some (record { rows = r; columns = c; elements = es })

  unfoldable pub new_matrix_from_function : ℕ → ℕ → (ℕ → ℕ → F) → Option (Matrix F)
  new_matrix_from_function r c fn =
      if r == 0 || c == 0 then none else new_matrix_from_slice r c (fill (r * c) 0 c fn)

module _ (K : Field) where
  open K use {F, zero as o, one, add, mul, inv, is_zero}

  -- m.elements[i*m.columns+j].
  unfoldable pub elem : Matrix F → ℕ → ℕ → F
  elem m i j = get_or m.elements (i * m.columns + j) o

  -- `none` is the panic of the two index checks.
  unfoldable pub at : Matrix F → ℕ → ℕ → Option F
  at m i j = if ltb i m.rows && ltb j m.columns then some (elem m i j) else none

  -- The sum of the products along the row `i` and the column `j`, for `k` below `n`.
  unfoldable pub dot : ℕ → Matrix F → Matrix F → ℕ → ℕ → F
  dot zero m n i j = o
  dot (suc k) m n i j = add (dot k m n i j) (mul (elem m i k) (elem n k j))

  unfoldable pub times : Matrix F → Matrix F → Option (Matrix F)
  times m n =
      if not (m.columns == n.rows)
      then none
      else new_matrix_from_function m.rows n.columns (dot m.columns m n)

  -- mulSlice(c, in, out) where out is in, and mulAndAddSlice.
  unfoldable pub mul_slice : F → List F → List F
  mul_slice c [] = []
  mul_slice c (x ∷ xs) = mul c x ∷ mul_slice c xs

  unfoldable pub mul_and_add_slice : F → List F → List F → List F
  mul_and_add_slice c [] out = out
  mul_and_add_slice c (x ∷ xs) [] = []
  mul_and_add_slice c (x ∷ xs) (y ∷ ys) = add y (mul c x) ∷ mul_and_add_slice c xs ys

  -- The slice m.elements[i*m.columns : (i+1)*m.columns], and m with that slice written.
  unfoldable pub row : Matrix F → ℕ → List F
  row m i = take m.columns (drop (i * m.columns) m.elements)

  unfoldable pub with_row : Matrix F → ℕ → List F → Matrix F
  with_row m i r = record m {
    elements =
        take (i * m.columns) m.elements ++ (r ++ drop (i * m.columns + m.columns) m.elements);
  }

  unfoldable pub swap_rows : Matrix F → ℕ → ℕ → Matrix F
  swap_rows m i j = if i == j then m else with_row (with_row m i (row m j)) j (row m i)

  unfoldable pub scale_row : Matrix F → ℕ → F → Matrix F
  scale_row m i c = with_row m i (mul_slice c (row m i))

  unfoldable pub add_scaled_row : Matrix F → ℕ → ℕ → F → Matrix F
  add_scaled_row m dest src c = with_row m dest (mul_and_add_slice c (row m src) (row m dest))

  -- The two matrices that the reduction works on.
  pub record Pair : Type 0 where
    pub left : Matrix F
    pub right : Matrix F

  -- The first row from `j` on, of the `count` left, whose column `i` is not zero.
  unfoldable pub find_pivot : ℕ → ℕ → ℕ → Matrix F → Option ℕ
  find_pivot zero j i m = none
  find_pivot (suc count) j i m =
      let rest = find_pivot count (j + 1) i m in if is_zero (elem m j i) then rest else some j

  -- Takes the multiple of row `i` off row `j` that clears m_ji.
  unfoldable pub clear : ℕ → ℕ → Pair → Pair
  clear i j s =
      let t = elem s.left j i in
      if is_zero t
      then s
      else record { left = add_scaled_row s.left j i t; right = add_scaled_row s.right j i t }

  -- The inner loops: `count` rows from `j` on.
  unfoldable pub clear_rows : ℕ → ℕ → ℕ → Pair → Pair
  clear_rows zero j i s = s
  clear_rows (suc count) j i s = clear_rows count (j + 1) i (clear i j s)

  -- The swap and the scaling of a round.
  unfoldable pub pivot_row : ℕ → ℕ → Pair → Pair
  pivot_row i j s =
      let m = swap_rows s.left i j in
      let n = swap_rows s.right i j in
      let pivot_inv = inv (elem m i i) in
      record { left = scale_row m i pivot_inv; right = scale_row n i pivot_inv }

  -- The first loop, to row echelon form; `none` is the error for a singular matrix.
  unfoldable pub echelon : ℕ → ℕ → Pair → Option Pair
  echelon zero i s = some s
  echelon (suc count) i s = elim (find_pivot (s.left.rows - i) i i s.left) [
    | none ↦ none
    | some j ↦
        let s' = pivot_row i j s in
        echelon count (i + 1) (clear_rows (s'.left.rows - (i + 1)) (i + 1) i s')
  ]

  -- The second loop, to reduced row echelon form.
  unfoldable pub reduce : ℕ → ℕ → Pair → Pair
  reduce zero i s = s
  reduce (suc count) i s = reduce count (i + 1) (clear_rows i 0 i s)

  unfoldable pub row_reduce : Pair → Option Pair
  row_reduce s = Option.map (λ t. reduce t.left.rows 0 t) (echelon s.left.rows 0 s)

  pub data Outcome : Type 0 where
    panic singular : Outcome
    done : Matrix F → Outcome

  -- RowReduceForInverse on copies of `m` and `n`.
  unfoldable pub row_reduce_for_inverse : Matrix F → Matrix F → Outcome
  row_reduce_for_inverse m n =
      if not (m.rows == m.columns)
      then panic
      else if not (n.rows == m.rows)
      then panic
      else elim (row_reduce (record { left = m; right = n })) [
        | none ↦ singular
        | some s ↦ done s.right
      ]

  abbrev pub identity_elem : ℕ → ℕ → F
  identity_elem i j = if i == j then one else o

  unfoldable pub new_identity_matrix : ℕ → Option (Matrix F)
  new_identity_matrix n = new_matrix_from_function n n identity_elem

  unfoldable pub inverse : Matrix F → Outcome
  inverse m = if not (m.rows == m.columns) then panic else elim (new_identity_matrix m.columns) [
    | none ↦ panic
    | some n ↦ row_reduce_for_inverse m n
  ]
