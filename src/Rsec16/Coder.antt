-- ===== src/Rsec16/Coder.antt =====
-- rsec16/coder.go: the coder and the parity shards that it generates. A shard is its elements.
use gopar.Common.{
  ℕ, zero, suc, ◌<◌, ◌≤◌, ◌≡◌, ◌∙◌, Option, none, some, List, [], ◌∷◌, length, replicate, arith,
  length-replicate,
}
use gopar.Gf2p16.Algebra.{Field}
use gopar.Gf2p16.Matrix.{Matrix}
use gopar.Gf2p16.Matrix.Solutions.{HasShape}
use gopar.Rsec16.Matrix.{apply_matrix_parallel_data}
use gopar.Rsec16.Matrix.Shares.{IsSchedule}
use gopar.Rsec16.Matrix.Product.{HaveLength, product}
use gopar.Rsec16.Matrix.Writes.{cell}
use gopar.Rsec16.Matrix.Parallel.{apply_matrix_single-IsProduct, apply_matrix_parallel_data-single}

pub record Coder (F : Type 0) : Type 0 where
  pub data_shards : ℕ
  pub parity_shards : ℕ
  pub num_goroutines : ℕ
  pub parity_matrix : Matrix F

abbrev pub first_shard : {A : Type 0} → List (List A) → List A
first_shard [] = []
first_shard (shard ∷ shards) = shard

module _ (K : Field) (schedule : ℕ → List ℕ) where
  open K use {F, zero as o}

  unfoldable pub apply_matrix :
      Coder F → Matrix F → List (List F) → List (List F) → Option (List (List F))
  apply_matrix c m input out = apply_matrix_parallel_data K schedule m input out c.num_goroutines

  -- data[0] of no shards panics.
  unfoldable pub generate_parity : Coder F → List (List F) → Option (List (List F))
  generate_parity c [] = none
  generate_parity c (shard ∷ shards) =
      apply_matrix c c.parity_matrix (shard ∷ shards)
        (replicate c.parity_shards (replicate (length shard) o))

  pub HaveLength-replicate : (n len : ℕ) → HaveLength len (replicate n (replicate len o))
  HaveLength-replicate zero len = tt
  HaveLength-replicate (suc n) len = (length-replicate len o, HaveLength-replicate n len)

  -- A matrix applied to shards of one length, with one goroutine or more, in whichever order they
  -- run, and a row of the matrix for each shard that comes out and a column for each that goes in:
  -- the rows that come out hold the products.
  pub apply_matrix-product :
      (c : Coder F) (m : Matrix F) (input : List (List F)) (count len : ℕ)
      → IsSchedule schedule
      → HaveLength len input
      → 0 < length input
      → 0 < count
      → 0 < c.num_goroutines
      → count ≤ m.rows
      → length input ≤ m.columns
      → (out : List (List F)) × (apply_matrix c m input
            (replicate count (replicate (length (first_shard input)) o))
          ≡ some out)
        × (HaveLength len out
            × ((length out ≡ count)
                × ((i p : ℕ) → i < count → p < len → cell K out i p ≡ product K m input i p)))
  unfolding apply_matrix
  apply_matrix-product c m [] count len all sizes some_input some_rows some_goroutines fit columns =
      absurd (omega arith)
  apply_matrix-product c m (shard ∷ shards) count len all sizes some_input some_rows some_goroutines
        fit columns =
      let zeros = replicate count (replicate len o) in
      let rows_count : length zeros ≡ count = length-replicate count (replicate len o) in
      let (out, single, (out_sizes, (rows, cells))) =
        apply_matrix_single-IsProduct K m shard shards len sizes zeros
          (HaveLength-replicate count len) (omega arith) (omega arith) columns in
      let parallel =
        apply_matrix_parallel_data-single K m shard shards len sizes schedule zeros c.num_goroutines
          all (HaveLength-replicate count len) (omega arith) some_goroutines in
      (
        out,
        rw sizes.0 (parallel ∙ single),
        (out_sizes, (rows ∙ rows_count, λ i p row col. cells i p (omega arith) col)),
      )

  -- A coder with one parity shard and one goroutine or more, whose parity matrix has a row for each
  -- parity shard and a column for each data shard, generates from its number of data shards, all of
  -- one length, as many parity shards of this length, and each of their elements is the product of a
  -- row of the parity matrix with a column of the data, in whichever order the goroutines run.
  pub generate_parity-product :
      (c : Coder F) (shard : List F) (shards : List (List F)) (len : ℕ)
      → IsSchedule schedule
      → HaveLength len (shard ∷ shards)
      → 0 < c.parity_shards
      → 0 < c.num_goroutines
      → HasShape c.parity_shards c.data_shards c.parity_matrix
      → length (shard ∷ shards) ≡ c.data_shards
      → (parity : List (List F)) × (generate_parity c (shard ∷ shards) ≡ some parity)
        × (HaveLength len parity
            × ((length parity ≡ c.parity_shards)
                × ((i p : ℕ)
                    → i < c.parity_shards
                    → p < len
                    → cell K parity i p ≡ product K c.parity_matrix (shard ∷ shards) i p)))
  unfolding generate_parity
  generate_parity-product c shard shards len all sizes some_parity some_goroutines shape count =
      apply_matrix-product c c.parity_matrix (shard ∷ shards) c.parity_shards len all sizes
        (omega arith) some_parity some_goroutines (omega (arith, shape.rows_eq))
        (omega (arith, shape.columns_eq))
