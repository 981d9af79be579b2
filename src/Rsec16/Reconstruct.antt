-- ===== src/Rsec16/Reconstruct.antt =====
-- rsec16/coder.go: the reconstruction of data shards from parity shards. A shard is its elements,
-- and one that is missing is none, where the source has nil.
pub mod Erasures
pub mod Recovery
pub mod Data
pub mod Enough
use gopar.Common.{
  ℕ, zero, suc, ◌+◌, ◌-◌, ◌==◌, ltb, ◌&&◌, if◌then◌else◌, Bool, true, false, Option, none, some,
  List, [], ◌∷◌, ◌++◌, length, get_or, set, replicate,
}
use gopar.Gf2p16.Algebra.{Field}
use gopar.Gf2p16.Matrix.{Matrix, Outcome, panic, singular, done, elem, at, row_reduce_for_inverse}
use gopar.Rsec16.Coder.{Coder, apply_matrix, first_shard}
use gopar.Rsec16.ParityMatrix.{try_matrix_from_function}

abbrev is_none : {A : Type 0} → Option A → Bool
is_none none = true
is_none (some a) = false

module _ {S : Type 0} where
  -- The first loop of ReconstructData, from the row `i` on: the rows that are there, those that are
  -- missing, and the shards that are there.
  unfoldable pub available_rows : ℕ → List (Option S) → List ℕ
  available_rows i [] = []
  available_rows i (none ∷ shards) = available_rows (i + 1) shards
  available_rows i (some shard ∷ shards) = i ∷ available_rows (i + 1) shards

  unfoldable pub missing_rows : ℕ → List (Option S) → List ℕ
  missing_rows i [] = []
  missing_rows i (none ∷ shards) = i ∷ missing_rows (i + 1) shards
  missing_rows i (some shard ∷ shards) = missing_rows (i + 1) shards

  unfoldable pub available_shards : List (Option S) → List S
  available_shards [] = []
  available_shards (none ∷ shards) = available_shards shards
  available_shards (some shard ∷ shards) = shard ∷ available_shards shards

  -- The loop over the parity shards, with `need` of them still wanted, from the row `i` on.
  unfoldable pub used_parity_rows : ℕ → ℕ → List (Option S) → List ℕ
  used_parity_rows zero i parity = []
  used_parity_rows (suc need) i [] = []
  used_parity_rows (suc need) i (none ∷ parity) = used_parity_rows (suc need) (i + 1) parity
  used_parity_rows (suc need) i (some shard ∷ parity) = i ∷ used_parity_rows need (i + 1) parity

  unfoldable pub used_parity_shards : ℕ → List (Option S) → List S
  used_parity_shards zero parity = []
  used_parity_shards (suc need) [] = []
  used_parity_shards (suc need) (none ∷ parity) = used_parity_shards (suc need) parity
  used_parity_shards (suc need) (some shard ∷ parity) = shard ∷ used_parity_shards need parity

  -- The last loop, which puts the reconstructed shards in the rows that are missing.
  unfoldable pub put_missing : List ℕ → List S → List (Option S) → List (Option S)
  put_missing [] shards rows = rows
  put_missing (r ∷ missing) [] rows = rows
  put_missing (r ∷ missing) (shard ∷ shards) rows =
      put_missing missing shards (set rows r (some shard))

module _ (K : Field) where
  open K use {F, zero as o, one}

  -- The elements of the matrix n of makeReconstructionMatrix.
  unfoldable pub known_elem : List ℕ → List ℕ → Matrix F → ℕ → ℕ → F
  known_elem available used parity_matrix i j =
      if ltb j (length available)
      then elem K parity_matrix (get_or used i 0) (get_or available j 0)
      else if i == j - length available
      then one
      else o

  -- The elements that are read of the parity matrix, or the panic of an index, which is none.
  unfoldable pub try_unknown : List ℕ → List ℕ → Matrix F → ℕ → ℕ → Option F
  try_unknown missing used parity_matrix i j =
      if ltb j (length missing)
      then at K parity_matrix (get_or used i 0) (get_or missing j 0)
      else none

  unfoldable pub try_known : List ℕ → List ℕ → Matrix F → ℕ → ℕ → Option F
  try_known available used parity_matrix i j =
      if ltb j (length available)
        && is_none (at K parity_matrix (get_or used i 0) (get_or available j 0))
      then none
      else some (known_elem available used parity_matrix i j)

  unfoldable pub make_reconstruction_matrix : ℕ → List ℕ → List ℕ → List ℕ → Matrix F → Outcome K
  make_reconstruction_matrix data_shards available missing used parity_matrix =
      elim (try_matrix_from_function (length used) (length used)
        (try_unknown missing used parity_matrix)) [
          | none ↦ panic
          | some m ↦
              elim (try_matrix_from_function (length used) data_shards
                (try_known available used parity_matrix)) [
                  | none ↦ panic
                  | some n ↦ row_reduce_for_inverse K m n
                ]
        ]

  -- What ReconstructData leaves in the data shards, or its error.
  pub data Reconstruction : Type 0 where
    panicked not_enough_parity_shards singular_matrix : Reconstruction
    reconstructed : List (Option (List F)) → Reconstruction

module _ (K : Field) (schedule : ℕ → List ℕ) where
  open K use {F, zero as o}

  unfoldable pub reconstruct_missing :
      Coder F → Matrix F → List ℕ → List (List F) → List (Option (List F)) → Reconstruction K
  reconstruct_missing c reconstruction_matrix missing input rows =
      elim (apply_matrix K schedule c reconstruction_matrix input
        (replicate (length missing) (replicate (length (first_shard input)) o))) [
          | none ↦ panicked
          | some shards ↦ reconstructed (put_missing missing shards rows)
        ]

  unfoldable pub reconstruct_data :
      Coder F → List (Option (List F)) → List (Option (List F)) → Reconstruction K
  reconstruct_data c rows parity =
      let available = available_rows 0 rows in
      let missing = missing_rows 0 rows in
      let found = available_shards rows in
      let need = c.data_shards - length found in
      let input = found ++ used_parity_shards need parity in
      if length missing == 0
      then reconstructed rows
      else if ltb (length input) c.data_shards
      then not_enough_parity_shards
      else elim (make_reconstruction_matrix K c.data_shards available missing
          (used_parity_rows need 0 parity) c.parity_matrix) [
            | panic ↦ panicked
            | singular ↦ singular_matrix
            | done reconstruction_matrix ↦
                reconstruct_missing c reconstruction_matrix missing input rows
          ]
