-- ===== src/Rsec16/Reconstruct/Recovery.antt =====
-- ReconstructData gives back the shards that are missing.
use gopar.Common.{
  ℕ, ◌+◌, ◌-◌, ◌<◌, ◌≤◌, ◌≡◌, some, Bool-cases, ◌≢◌, sym, ap, ◌∙◌, ◌==◌, ltb, true, false, List,
  length, get_or, arith, not, Option-cases, inl, inr,
}
use mathlib.Core.Path.{ap₂}
use gopar.Gf2p16.Algebra.{Field, sum, sum_ext, sum-zero, sum_single, zero-mul, mul-zero}
use gopar.Gf2p16.Matrix.{
  Matrix, panic, singular, done, elem, at, row_reduce, row_reduce_for_inverse,
}
use gopar.Gf2p16.Matrix.Function.{new_matrix_from_function-elem}
use gopar.Gf2p16.Matrix.Solutions.{HasShape, apply}
use gopar.Gf2p16.Matrix.Reduction.{row_reduce_for_inverse-solution}
use gopar.Rsec16.Reconstruct.{known_elem, try_unknown, try_known, make_reconstruction_matrix}
use gopar.Rsec16.ParityMatrix.{try_matrix_from_function}
use gopar.Rsec16.ParityMatrix.Fill.{try_matrix_from_function_lem}
use gopar.Rsec16.Reconstruct.Erasures.{sum_range, sum_over}

module _ (K : Field) where
  open K use {F, zero as o, one, add, mul, add_assoc, add_self, zero-add, one-mul}

  module _ (P : Matrix F) (available missing used : List ℕ) (x y : ℕ → F) (k : ℕ → F) (count : ℕ)
      (hc : count ≡ length available + length used)
      (known : (j : ℕ) → j < length available → y j ≡ x (get_or available j 0))
      (parity : (i : ℕ) → i < length used → y (length available + i) ≡ k i)
      (split : (i : ℕ)
        → i < length used
        → k i
          ≡ add
              (sum_over K (λ a. mul (elem K P (get_or used i 0) a) (x a)) available)
              (sum_over K (λ a. mul (elem K P (get_or used i 0) a) (x a)) missing)) where
    -- A row of the known matrix takes the input to the missing part of a parity element.
    pub known-missing :
        (i : ℕ)
        → i < length used
        → sum K count (λ j. mul (known_elem K available used P i j) (y j))
          ≡ sum_over K (λ a. mul (elem K P (get_or used i 0) a) (x a)) missing
    unfolding known_elem
    known-missing i hi =
        let row = λ (a : ℕ). mul (elem K P (get_or used i 0) a) (x a) in
        let f = λ (j : ℕ). mul (known_elem K available used P i j) (y j) in
        let n = length available in
        let left : sum K n f ≡ sum_over K row available = sum_ext K n _ _ (λ j lt.
          let inside : ltb j n ≡ true = ground arith in
          rw inside (ap (mul (elem K P (get_or used i 0) (get_or available j 0))) (known j lt))) in
        let right : sum K (length used) (λ t. f (n + t)) ≡ k i =
          sum_single K (length used) i (λ t. f (n + t)) hi
            (λ t lt ne.
              let outside : ltb (n + t) n ≡ false = ground arith in
              let other : (i == n + t - n) ≡ false = ground arith in
              rw (outside, other) (zero-mul K (y (n + t))))
          ∙ (let outside : ltb (n + i) n ≡ false = ground arith in
              let same : (i == n + i - n) ≡ true = ground arith in
              rw (outside, same) (one-mul (y (n + i)) ∙ parity i hi)) in
        let a = sum_over K row available in
        let b = sum_over K row missing in
        ap (λ (c : ℕ). sum K c f) hc
        ∙ sum_range K n (length used) f
        ∙ ap₂ add left (right ∙ split i hi)
        ∙ sym (add_assoc a a b)
        ∙ ap (λ t. add t b) (add_self a)
        ∙ zero-add b

  pub columns :
      (m : Matrix F) (r c : ℕ)
      → HasShape r c m
      → (z : ℕ → F) (a : ℕ) → apply K m z a ≡ sum K c (λ j. mul (elem K m a j) (z j))
  unfolding apply
  columns m r c h z a = ap (λ (n : ℕ). sum K n (λ j. mul (elem K m a j) (z j))) h.columns_eq

  -- The rows and the columns that are read lie in the parity matrix.
  pub record InRange (P : Matrix F) (available missing used : List ℕ) : Type 0 where
    pub used_row : (i : ℕ) → i < length used → get_or used i 0 < P.rows
    pub known_column : (j : ℕ) → j < length available → get_or available j 0 < P.columns
    pub unknown_column : (j : ℕ) → j < length missing → get_or missing j 0 < P.columns
    pub as_many : length used ≤ length missing

  module _ (P : Matrix F) (available missing used : List ℕ)
      (inside : InRange P available missing used) where
    try_unknown-some :
        (i j : ℕ)
        → i < length used
        → j < length used
        → try_unknown K missing used P i j ≡ some (elem K P (get_or used i 0) (get_or missing j 0))
    unfolding try_unknown at
    try_unknown-some i j hi hj =
        let few = inside.as_many in
        let there : ltb j (length missing) ≡ true = ground arith in
        let row : ltb (get_or used i 0) P.rows ≡ true = ground (arith, inside.used_row i hi) in
        let column : ltb (get_or missing j 0) P.columns ≡ true =
          ground (arith, inside.unknown_column j (omega arith)) in
        rw (there, row, column)

    try_known-some :
        (count i j : ℕ)
        → i < length used
        → j < count
        → try_known K available used P i j ≡ some (known_elem K available used P i j)
    unfolding try_known at
    try_known-some count i j hi hj = elim (Bool-cases (ltb j (length available))) [
      | inr unit ↦ rw unit
      | inl known ↦
          let row : ltb (get_or used i 0) P.rows ≡ true = ground (arith, inside.used_row i hi) in
          let column : ltb (get_or available j 0) P.columns ≡ true =
            ground (arith, inside.known_column j (ground arith)) in
          rw (known, row, column)
    ]

  -- A reconstruction matrix takes the input to the missing elements, for every pair of columns that
  -- the two matrices it is made from take to the same column.
  pub make-solution :
      (count : ℕ) (available missing used : List ℕ) (P n' : Matrix F) (x' y : ℕ → F)
      → InRange P available missing used
      → 0 < length used
      → 0 < count
      → make_reconstruction_matrix K count available missing used P ≡ done n'
      → ((i : ℕ)
          → i < length used
          → sum K (length used) (λ j. mul (elem K P (get_or used i 0) (get_or missing j 0)) (x' j))
            ≡ sum K count (λ j. mul (known_elem K available used P i j) (y j)))
      → HasShape (length used) count n' × ((a : ℕ) → a < length used → x' a ≡ apply K n' y a)
  unfolding make_reconstruction_matrix
  make-solution count available missing used P n' x' y inside hu hc run eqs =
      let r = length used in
      let unknown = λ (i j : ℕ). elem K P (get_or used i 0) (get_or missing j 0) in
      let (m, em, (hm, elm)) = new_matrix_from_function-elem K r r unknown hu hu in
      let (n, en, (hn, eln)) =
        new_matrix_from_function-elem K r count (known_elem K available used P) hu hc in
      let tm : try_matrix_from_function r r (try_unknown K missing used P) ≡ some m =
        try_matrix_from_function_lem r r (try_unknown K missing used P) unknown hu
          (try_unknown-some P available missing used inside) hu
        ∙ em in
      let tn : try_matrix_from_function r count (try_known K available used P) ≡ some n =
        try_matrix_from_function_lem r count (try_known K available used P)
          (known_elem K available used P) hc (try_known-some P available missing used inside count)
          hu
        ∙ en in
      let same : make_reconstruction_matrix K count available missing used P
          ≡ row_reduce_for_inverse K m n =
        rw (tm, tn, make_reconstruction_matrix) in
      row_reduce_for_inverse-solution K m n n' r count x' y hm hn (sym same ∙ run) (λ a ha.
        columns m r r hm x' a
        ∙ sum_ext K r _ _ (λ j lt. ap (λ t. mul t (x' j)) (elm a j ha lt))
        ∙ eqs a ha
        ∙ sum_ext K count _ _ (λ j lt. ap (λ t. mul t (y j)) (sym (eln a j ha lt)))
        ∙ sym (columns n r count hn y a))

  pub make-HasShape :
      (count : ℕ) (available missing used : List ℕ) (P n' : Matrix F)
      → InRange P available missing used
      → 0 < length used
      → 0 < count
      → make_reconstruction_matrix K count available missing used P ≡ done n'
      → HasShape (length used) count n'
  make-HasShape count available missing used P n' inside hu hc run =
      let zeros = λ (n : ℕ) (f : ℕ → F).
        sum_ext K n (λ j. mul (f j) o) (λ j. o) (λ j lt. mul-zero K (f j)) ∙ sum-zero K n in
      (make-solution count available missing used P n' (λ a. o) (λ a. o) inside hu hc run
        (λ i hi.
          zeros (length used) (λ j. elem K P (get_or used i 0) (get_or missing j 0))
          ∙ sym (zeros count (known_elem K available used P i)))).0

  -- The two matrices have the counts that the reduction asks for.
  pub make-no_panic :
      (count : ℕ) (available missing used : List ℕ) (P : Matrix F)
      → InRange P available missing used
      → 0 < length used
      → 0 < count
      → make_reconstruction_matrix K count available missing used P ≢ panic
  unfolding make_reconstruction_matrix row_reduce_for_inverse
  make-no_panic count available missing used P inside hu hc run =
      let r = length used in
      let unknown = λ (i j : ℕ). elem K P (get_or used i 0) (get_or missing j 0) in
      let (m, em, (hm, elm)) = new_matrix_from_function-elem K r r unknown hu hu in
      let (n, en, (hn, eln)) =
        new_matrix_from_function-elem K r count (known_elem K available used P) hu hc in
      let tm : try_matrix_from_function r r (try_unknown K missing used P) ≡ some m =
        try_matrix_from_function_lem r r (try_unknown K missing used P) unknown hu
          (try_unknown-some P available missing used inside) hu
        ∙ em in
      let tn : try_matrix_from_function r count (try_known K available used P) ≡ some n =
        try_matrix_from_function_lem r count (try_known K available used P)
          (known_elem K available used P) hc (try_known-some P available missing used inside count)
          hu
        ∙ en in
      let square : (not (m.rows == m.columns)) ≡ false =
        ground (arith, hm.rows_eq, hm.columns_eq) in
      let fits : (not (n.rows == m.rows)) ≡ false = ground (arith, hm.rows_eq, hn.rows_eq) in
      elim (Option-cases (row_reduce K (record { left = m; right = n }))) [
        | inl lost ↦
            let same : make_reconstruction_matrix K count available missing used P ≡ singular =
              rw (tm, tn, square, fits, lost, make_reconstruction_matrix, row_reduce_for_inverse) in
            absurd (ground (arith, same))
        | inr (s, found) ↦
            let same : make_reconstruction_matrix K count available missing used P ≡ done s.right =
              rw
                (tm, tn, square, fits, found, make_reconstruction_matrix, row_reduce_for_inverse) in
            absurd (ground (arith, same))
      ]
