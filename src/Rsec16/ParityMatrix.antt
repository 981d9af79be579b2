-- ===== src/Rsec16/ParityMatrix.antt =====
-- rsec16/cauchy.go, rsec16/vandermonde.go and the constructors of rsec16/coder.go: the two parity
-- matrices. An int that becomes an element keeps its low 16 bits.
pub mod Fill
pub mod Vandermonde
pub mod Cauchy
use gopar.Common.{
  ℕ, zero, suc, ◌+◌, ◌-◌, ◌*◌, ◌/◌, ◌%◌, ◌^◌, ◌<◌, ◌==◌, ltb, ◌&&◌, ◌||◌, not, if◌then◌else◌, Bool,
  Option, none, some, List, [], ◌∷◌, length, get_elem?, arith,
}
use mathlib.Core.Option
use native.Mathlib.Nat.{mod-lt}
use gopar.Gf2p16.T.{T, Tables, pow}
use gopar.Gf2p16.T.Init.{IsFilled}
use gopar.Gf2p16.Algebra.{Field}
use gopar.Gf2p16.Element.{Element, gf}
use gopar.Gf2p16.Matrix.{Matrix, new_matrix_from_slice}
use gopar.Rsec16.Coder.{Coder}

-- What a constructor returns, or the panic of a count that is not positive.
pub data Construction (F : Type 0) : Type 0 where
  panicked too_many_shards too_many_data_shards too_many_parity_shards : Construction F
  made : Coder F → Construction F

-- NewMatrixFromFunction with a function that may panic, which is none.
module _ {F : Type 0} where
  unfoldable pub try_fill : ℕ → ℕ → ℕ → (ℕ → ℕ → Option F) → Option (List F)
  try_fill zero p columns fn = some []
  try_fill (suc n) p columns fn =
      let rest = try_fill n (p + 1) columns fn in
      elim (fn (p / columns) (p % columns)) [
        | none ↦ none
        | some x ↦ Option.map (λ xs. x ∷ xs) rest
      ]

  unfoldable pub try_matrix_from_function : ℕ → ℕ → (ℕ → ℕ → Option F) → Option (Matrix F)
  try_matrix_from_function r c fn =
      if r == 0 || c == 0
      then none
      else elim (try_fill (r * c) 0 c fn) [ none ↦ none | some es ↦ new_matrix_from_slice r c es ]

  -- What the constructors do with the matrix.
  unfoldable pub finish_coder : ℕ → ℕ → ℕ → Option (Matrix F) → Construction F
  finish_coder data_shards parity_shards num_goroutines none = panicked
  finish_coder data_shards parity_shards num_goroutines (some m) = made (record {
    data_shards = data_shards;
    parity_shards = parity_shards;
    num_goroutines = num_goroutines;
    parity_matrix = m;
  })

-- A generator has an order that no factor of 65535 divides.
unfoldable pub is_generator_index : ℕ → Bool
is_generator_index i = not (i % 3 == 0 || (i % 5 == 0 || (i % 17 == 0 || i % 257 == 0)))

-- The sum of two ints that are not negative wraps, and is negative from 2 ^ 63 on.
unfoldable pub int_sum : ℕ → ℕ → ℕ
int_sum a b = (a + b) % 2 ^ 64

unfoldable pub too_many : ℕ → Bool
too_many sum = ltb 0xffff sum && ltb sum (2 ^ 63)

module _ (K : Field) (element : ℕ → Field.F K) where
  open K use {F, add, inv, is_zero}

  -- Inverse of an element, whose panic on zero is none.
  unfoldable pub try_inverse : F → Option F
  try_inverse a = if is_zero a then none else some (inv a)

  unfoldable pub new_cauchy_matrix : ℕ → ℕ → (ℕ → F) → (ℕ → F) → Option (Matrix F)
  new_cauchy_matrix rows columns x_func y_func =
      try_matrix_from_function rows columns (λ i j. try_inverse (add (x_func i) (y_func j)))

  unfoldable pub new_cauchy_parity_matrix : ℕ → ℕ → Option (Matrix F)
  new_cauchy_parity_matrix data_shards parity_shards =
      new_cauchy_matrix parity_shards data_shards (λ i. element (data_shards + i)) element

  unfoldable pub new_coder_cauchy : ℕ → ℕ → ℕ → Construction F
  new_coder_cauchy data_shards parity_shards num_goroutines =
      if data_shards == 0
      then panicked
      else if parity_shards == 0
      then panicked
      else if num_goroutines == 0
      then panicked
      else if too_many (int_sum data_shards parity_shards)
      then too_many_shards
      else finish_coder data_shards parity_shards num_goroutines
          (new_cauchy_parity_matrix data_shards parity_shards)

-- The elements 2^i of full order, from `i` on, with `n` indices left, as init fills them in.
module _ (t : Tables) where
  unfoldable pub generators_from : ℕ → ℕ → List T
  generators_from zero i = []
  generators_from (suc n) i =
      let rest = generators_from n (i + 1) in
      if is_generator_index i then pow t 2 i ∷ rest else rest

  unfoldable pub generators : List T
  generators = generators_from (2 ^ 16) 0

module _ {F : Type 0} (t : Tables) (element : T → F) where
  -- The index may be past the last generator, which panics.
  unfoldable pub vandermonde_elem : ℕ → ℕ → Option F
  vandermonde_elem i j = Option.map (λ g. element (pow t g i)) (get_elem? (generators t) j)

  unfoldable pub new_vandermonde_matrix : ℕ → ℕ → Option (Matrix F)
  new_vandermonde_matrix rows columns = try_matrix_from_function rows columns vandermonde_elem

  unfoldable pub new_coder_par2_vandermonde : ℕ → ℕ → ℕ → Construction F
  new_coder_par2_vandermonde data_shards parity_shards num_goroutines =
      if data_shards == 0
      then panicked
      else if parity_shards == 0
      then panicked
      else if num_goroutines == 0
      then panicked
      else if ltb (length (generators t)) data_shards
      then too_many_data_shards
      else if ltb (2 ^ 16 - 1) parity_shards
      then too_many_parity_shards
      else finish_coder data_shards parity_shards num_goroutines
          (new_vandermonde_matrix parity_shards data_shards)

-- gf2p16.T(n) of an int.
unfoldable pub number : ℕ → Element
number n = (n % 2 ^ 16, mod-lt n (omega arith))
