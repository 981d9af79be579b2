-- ===== src/Gf2p16/Tests.antt =====
-- The theorems at concrete inputs. The smallest field of characteristic two stands in for the
-- elements where a reduction is run.
use gopar.Gf2p16.Slice.{
  words, mul_byte_slice_le_generic, mul_and_add_byte_slice_le_generic, add_products,
  mul_byte_slice_le_generic-words,
}
use mathlib.Core.List.{map}
use gopar.Common.{
  ℕ, zero, suc, ◌≡◌, ◌<◌, ◌^◌, refl, Bool, true, false, arith, [], ◌∷◌, get_or, some, not,
}
use mathlib.Core.Option
use gopar.Gf2p16.T.{Tables, times, plus, inverse, div, pow}
use gopar.Gf2p16.T.Init.{IsFilled, init-IsFilled}
use gopar.Gf2p16.T.Field.{times-plus, inverse-times, div-times-inverse, pow-repeated, repeated}
use gopar.Gf2p16.Algebra.{Field, sum}
use gopar.Gf2p16.Matrix.{
  Matrix, done, row_reduce_for_inverse, row_reduce, echelon, reduce, clear_rows, clear, pivot_row,
  find_pivot, swap_rows, scale_row, add_scaled_row, with_row, row, mul_slice, mul_and_add_slice,
  elem,
}
use gopar.Gf2p16.Matrix.Solutions.{HasShape, apply}
use gopar.Gf2p16.Matrix.Reduction.{row_reduce_for_inverse-solution}

abbrev bit_plus : Bool → Bool → Bool
bit_plus true true = false
bit_plus true false = true
bit_plus false b = b

abbrev bit_times : Bool → Bool → Bool
bit_times true b = b
bit_times false b = false

abbrev pub bits : Field
bits = record {
  F = Bool;
  zero = false;
  one = true;
  add = bit_plus;
  mul = bit_times;
  inv = λ a. a;
  is_zero = not;
  is_zero_iff = elim [ true ↦ (λ h. cc, λ h. cc) | false ↦ (λ h. refl, λ h. refl) ];
  zero-ne-one = λ e. cc;
  add_assoc = λ a b c. ground arith;
  add_comm = λ a b. ground arith;
  zero-add = λ a. refl;
  add_self = λ a. ground arith;
  mul_assoc = λ a b c. ground arith;
  mul_comm = λ a b. ground arith;
  one-mul = λ a. refl;
  mul-add = λ a b c. ground arith;
  mul-inv = elim [ true ↦ λ ne. refl | false ↦ λ ne. absurd (ne refl) ];
}

-- Rows (0 1) and (1 1), reduced with the unit matrix; the inverse has the rows (1 1) and (1 0).
abbrev swapped_rows : Matrix Bool
swapped_rows = record { rows = 2; columns = 2; elements = false ∷ true ∷ true ∷ true ∷ [] }

abbrev unit_rows : Matrix Bool
unit_rows = record { rows = 2; columns = 2; elements = true ∷ false ∷ false ∷ true ∷ [] }

abbrev inverse_rows : Matrix Bool
inverse_rows = record { rows = 2; columns = 2; elements = true ∷ true ∷ true ∷ false ∷ [] }

run_example : row_reduce_for_inverse bits swapped_rows unit_rows ≡ done inverse_rows
unfolding row_reduce_for_inverse row_reduce echelon reduce clear_rows clear pivot_row find_pivot
    swap_rows scale_row add_scaled_row with_row row mul_slice mul_and_add_slice elem
run_example = refl

swapped_rows-HasShape : HasShape 2 2 swapped_rows
swapped_rows-HasShape = record { rows_eq = refl; columns_eq = refl; valid = record { area = refl } }

unit_rows-HasShape : HasShape 2 2 unit_rows
unit_rows-HasShape = record { rows_eq = refl; columns_eq = refl; valid = record { area = refl } }

-- The column (1 0), and what the matrix takes it to, (0 1).
abbrev input : ℕ → Bool
input i = get_or (true ∷ false ∷ []) i false

abbrev output : ℕ → Bool
output i = get_or (false ∷ true ∷ []) i false

products_agree : (a : ℕ) → a < 2 → apply bits swapped_rows input a ≡ apply bits unit_rows output a
unfolding apply elem sum
products_agree zero h = refl
products_agree (suc zero) h = refl
products_agree (suc (suc a)) h = absurd (omega arith)

row_reduce_for_inverse-solution_example :
    HasShape 2 2 inverse_rows × ((a : ℕ) → a < 2 → input a ≡ apply bits inverse_rows output a)
row_reduce_for_inverse-solution_example =
    row_reduce_for_inverse-solution bits swapped_rows unit_rows inverse_rows 2 2 input output
      swapped_rows-HasShape unit_rows-HasShape run_example products_agree

-- The tables that init returns.
abbrev tables : Tables
tables = init-IsFilled.0

abbrev full : IsFilled 65535 tables
full = init-IsFilled.2

times-plus_example : times tables 7 (plus 300 5) ≡ plus (times tables 7 300) (times tables 7 5)
times-plus_example = times-plus tables full 7 300 5 (omega arith) (omega arith) (omega arith)

inverse-times_example :
    (v : ℕ) × (inverse tables 2 ≡ some v) × (v < 2 ^ 16) × (0 < v) × (times tables 2 v ≡ 1)
inverse-times_example = inverse-times tables full 2 (omega arith) (omega arith)

div-times-inverse_example : div tables 6 3 ≡ Option.map (times tables 6) (inverse tables 3)
div-times-inverse_example = div-times-inverse tables full 6 3 (omega arith) (omega arith)

pow-repeated_example : pow tables 2 20 ≡ repeated tables full 2 20
pow-repeated_example = pow-repeated tables full 2 20 (omega arith) (omega arith)

mul_byte_slice_le_generic-words_example :
    (words (mul_byte_slice_le_generic tables 7 (1 ∷ 2 ∷ 3 ∷ 4 ∷ []))
      ≡ map (times tables 7) (words (1 ∷ 2 ∷ 3 ∷ 4 ∷ [])))
    × (words (mul_and_add_byte_slice_le_generic tables 7 (1 ∷ 2 ∷ 3 ∷ 4 ∷ []) (5 ∷ 6 ∷ 7 ∷ 8 ∷ []))
        ≡ add_products tables 7 (words (1 ∷ 2 ∷ 3 ∷ 4 ∷ [])) (words (5 ∷ 6 ∷ 7 ∷ 8 ∷ [])))
mul_byte_slice_le_generic-words_example =
    mul_byte_slice_le_generic-words tables full 7 (1 ∷ 2 ∷ 3 ∷ 4 ∷ []) (5 ∷ 6 ∷ 7 ∷ 8 ∷ [])
      (omega arith) (ground arith) (ground arith) refl
