-- ===== src/Rsec16/Tests/Coders.antt =====
-- The constructors of the coder at small counts, over GF(2^16) with the tables of init.
use gopar.Common.{ℕ, suc, ◌+◌, ◌^◌, ◌≡◌, ◌≢◌, ◌≤◌, ◌<◌, ◌↔◌, some, length, get_or, arith}
use gopar.Gf2p16.T.{Tables}
use gopar.Gf2p16.T.Init.{IsFilled, init-IsFilled}
use gopar.Gf2p16.T.Field.{repeated}
use gopar.Gf2p16.Algebra.{Field}
use gopar.Gf2p16.Element.{gf}
use gopar.Gf2p16.Matrix.{elem, new_matrix_from_function}
use gopar.Gf2p16.Matrix.Solutions.{HasShape}
use gopar.Rsec16.Coder.{Coder}
use gopar.Rsec16.ParityMatrix.{
  panicked, too_many_shards, too_many_data_shards, too_many_parity_shards, made, number,
  new_coder_cauchy, new_coder_par2_vandermonde, generators, generators_from, is_generator_index,
}
use gopar.Rsec16.ParityMatrix.Cauchy.{
  new_coder_cauchy-made, new_coder_cauchy-too_many_shards, number-injective,
}
use gopar.Rsec16.ParityMatrix.Vandermonde.{
  new_coder_par2_vandermonde-made, new_coder_par2_vandermonde-errors,
}

abbrev pub tables : Tables
tables = init-IsFilled.0

abbrev pub full : IsFilled 65535 tables
full = init-IsFilled.2

abbrev pub field : Field
field = gf tables full

abbrev pub F : Type 0
F = Field.F field

-- gf2p16.T of an int as an element of the field.
unfoldable pub to_field : ℕ → F
unfolding gf
to_field n = number n

to_field_distinct : (a b : ℕ) → a < 2 ^ 16 → b < 2 ^ 16 → to_field a ≡ to_field b → a ≡ b
unfolding to_field gf
to_field_distinct a b ha hb e = number-injective a b ha hb e

new_coder_cauchy-made_example :
    (c : Coder F) × (new_coder_cauchy field to_field 2 1 1 ≡ made c)
    × ((c.data_shards ≡ 2) × (c.parity_shards ≡ 1) × (c.num_goroutines ≡ 1))
    × (HasShape 1 2 c.parity_matrix
        × ((i j : ℕ)
            → i < 1
            → j < 2
            → Field.mul field
                (Field.add field (to_field (2 + i)) (to_field j))
                (elem field c.parity_matrix i j)
              ≡ Field.one field))
new_coder_cauchy-made_example =
    new_coder_cauchy-made field to_field to_field_distinct 2 1 1 (omega arith) (omega arith)
      (omega arith) (omega arith)

new_coder_cauchy-too_many_shards_example :
    ((new_coder_cauchy field to_field 40000 30000 1 ≡ too_many_shards) ↔ (2 ^ 16 ≤ 40000 + 30000))
    × (new_coder_cauchy field to_field 40000 30000 1 ≢ panicked)
new_coder_cauchy-too_many_shards_example =
    new_coder_cauchy-too_many_shards field to_field to_field_distinct 40000 30000 1 (omega arith)
      (omega arith) (omega arith) (omega arith)

generators_from-some : (n : ℕ) → 0 < length (generators_from tables (suc (suc n)) 0)
unfolding generators_from is_generator_index
generators_from-some n = omega arith

pub some_generators : 1 ≤ length (generators tables)
unfolding generators
some_generators = generators_from-some 65534

new_coder_par2_vandermonde-made_example :
    (c : Coder F) × (new_coder_par2_vandermonde tables to_field 1 3 2 ≡ made c)
    × ((c.data_shards ≡ 1) × (c.parity_shards ≡ 3) × (c.num_goroutines ≡ 2))
    × (new_matrix_from_function 3 1
          (λ i j. to_field (repeated tables full (get_or (generators tables) j 0) i))
        ≡ some c.parity_matrix)
new_coder_par2_vandermonde-made_example =
    new_coder_par2_vandermonde-made tables full to_field 1 3 2 (omega arith) (omega arith)
      (omega arith) some_generators (omega arith)

new_coder_par2_vandermonde-errors_example :
    ((new_coder_par2_vandermonde tables to_field 1 70000 2 ≡ too_many_data_shards)
      ↔ (length (generators tables) < 1))
    × (((new_coder_par2_vandermonde tables to_field 1 70000 2 ≡ too_many_parity_shards)
          ↔ ((1 ≤ length (generators tables)) × (2 ^ 16 ≤ 70000)))
        × (new_coder_par2_vandermonde tables to_field 1 70000 2 ≢ panicked))
new_coder_par2_vandermonde-errors_example =
    new_coder_par2_vandermonde-errors tables full to_field 1 70000 2 (omega arith) (omega arith)
      (omega arith)
