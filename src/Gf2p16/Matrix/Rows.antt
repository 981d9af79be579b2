-- ===== src/Gf2p16/Matrix/Rows.antt =====
-- What the row operations do to each element.
use gopar.Common.{
  ℕ, ◌+◌, ◌-◌, ◌*◌, ◌<◌, ◌≤◌, ◌≡◌, ◌≢◌, sym, ap, ◌∙◌, List, ◌++◌, length, get_or, take, drop,
  length-append, length-take, length-drop, get_or-append_left, get_or-append_right, get_or-take,
  get_or-drop, arith,
}
use native.Mathlib.Decide.{dec_lt}
use native.Mathlib.Nat.{mul-le-mul_right}
use gopar.Gf2p16.Algebra.{Field}
use gopar.Gf2p16.Matrix.{Matrix, elem, row, with_row}

-- The elements fill the rows.
pub record IsMatrix {F : Type 0} (m : Matrix F) : Type 0 where
  pub area : length m.elements ≡ m.rows * m.columns

-- A list with the part from `a` on overwritten by `ys`.
module _ {A : Type 0} (d : A) (xs ys : List A) (a b : ℕ) (end : a + length ys ≡ b)
    (fits : b ≤ length xs) where
  abbrev spliced : List A
  spliced = take a xs ++ (ys ++ drop b xs)

  pub length-splice : length spliced ≡ length xs
  length-splice = omega (
    arith,
    length-append (take a xs) (ys ++ drop b xs),
    length-append ys (drop b xs),
    length-take a xs,
    length-drop b xs,
  )

  head_length : length (take a xs) ≡ a
  head_length = omega (arith, length-take a xs)

  pub get_or-splice_before : (i : ℕ) → i < a → get_or spliced i d ≡ get_or xs i d
  get_or-splice_before i h =
      get_or-append_left (take a xs) (ys ++ drop b xs) i d (omega (arith, head_length))
      ∙ get_or-take a i xs d h

  tail_part : (i : ℕ) → get_or spliced (a + i) d ≡ get_or (ys ++ drop b xs) i d
  tail_part i =
      ap (λ (k : ℕ). get_or spliced (k + i) d) (sym head_length)
      ∙ get_or-append_right (take a xs) (ys ++ drop b xs) i d

  pub get_or-splice_in : (i : ℕ) → i < length ys → get_or spliced (a + i) d ≡ get_or ys i d
  get_or-splice_in i h = tail_part i ∙ get_or-append_left ys (drop b xs) i d h

  pub get_or-splice_after : (i : ℕ) → b ≤ i → get_or spliced i d ≡ get_or xs i d
  get_or-splice_after i h =
      let k = i - b in
      let e : a + (length ys + k) ≡ i = omega arith in
      ap (λ (n : ℕ). get_or spliced n d) (sym e)
      ∙ tail_part (length ys + k)
      ∙ get_or-append_right ys (drop b xs) k d
      ∙ get_or-drop b k xs d
      ∙ ap (λ (n : ℕ). get_or xs n d) (omega arith)

row_end : (i r c : ℕ) → i < r → i * c + c ≤ r * c
row_end i r c h = omega (arith, mul-le-mul_right c h)

before_row : (i a c k : ℕ) → a < i → k < c → a * c + k < i * c
before_row i a c k h hk = omega (arith, mul-le-mul_right c h)

module _ (K : Field) where
  open K use {F, zero as o, add, mul}

  module _ (m : Matrix F) (valid : IsMatrix m) (i : ℕ) (hi : i < m.rows) where
    fits : i * m.columns + m.columns ≤ length m.elements
    fits = omega (arith, valid.area, row_end i m.rows m.columns hi)

    pub length-row : length (row K m i) ≡ m.columns
    unfolding row
    length-row = omega (
      arith,
      fits,
      length-take m.columns (drop (i * m.columns) m.elements),
      length-drop (i * m.columns) m.elements,
    )

    pub get_or-row : (k : ℕ) → k < m.columns → get_or (row K m i) k o ≡ elem K m i k
    unfolding row elem
    get_or-row k h =
        get_or-take m.columns k (drop (i * m.columns) m.elements) o h
        ∙ get_or-drop (i * m.columns) k m.elements o

    module _ (r : List F) (width : length r ≡ m.columns) where
      pub with_row-IsMatrix : IsMatrix (with_row K m i r)
      unfolding with_row
      with_row-IsMatrix = record {
        area =
            length-splice o m.elements r (i * m.columns) (i * m.columns + m.columns) (omega arith)
              fits
            ∙ valid.area;
      }

      -- The written row, and the others.
      pub elem-with_row_self :
          (k : ℕ) → k < m.columns → elem K (with_row K m i r) i k ≡ get_or r k o
      unfolding elem with_row
      elem-with_row_self k h =
          get_or-splice_in o m.elements r (i * m.columns) (i * m.columns + m.columns) (omega arith)
            fits k (omega arith)

      pub elem-with_row_ne :
          (a k : ℕ) → a ≢ i → k < m.columns → elem K (with_row K m i r) a k ≡ elem K m a k
      unfolding elem with_row
      elem-with_row_ne a k ne h = elim (dec_lt a i) [
        | yes lt ↦
            get_or-splice_before o m.elements r (i * m.columns) (i * m.columns + m.columns)
              (omega arith) fits (a * m.columns + k) (before_row i a m.columns k lt h)
        | no ge ↦
            get_or-splice_after o m.elements r (i * m.columns) (i * m.columns + m.columns)
              (omega arith) fits (a * m.columns + k)
              (omega (arith, row_end i a m.columns (omega arith)))
      ]
