-- ===== src/Rsec16/Matrix.antt =====
-- rsec16/matrix.go: a matrix applied to shards, by one goroutine or by several. A shard is the
-- elements that its little-endian pairs of bytes are, so the byte offsets, which are even, are
-- halved where a shard is read or written.
pub mod Product
pub mod Writes
pub mod Shares
pub mod Parallel
pub mod ParallelOut
use gopar.Common.{
  ℕ, zero, suc, ◌+◌, ◌-◌, ◌*◌, ◌/◌, ◌%◌, ◌==◌, ltb, leb, ◌&&◌, not, if◌then◌else◌, Bool, true,
  false, Option, none, some, List, [], ◌∷◌, ◌++◌, length, get_or, set, take, drop,
}
use gopar.Gf2p16.Algebra.{Field}
use gopar.Gf2p16.Matrix.{Matrix, elem, mul_slice, mul_and_add_slice}

-- x[start:end] of a shard, and a shard with that slice written.
abbrev pub slice_shard {ℓ} : {A : Type ℓ} → ℕ → ℕ → List A → List A
slice_shard start end shard = take (end / 2 - start / 2) (drop (start / 2) shard)

abbrev pub write_shard {ℓ} : {A : Type ℓ} → ℕ → ℕ → List A → List A → List A
write_shard start end new shard = take (start / 2) shard ++ (new ++ drop (end / 2) shard)

-- len(x[0]), in bytes.
abbrev pub first_length {ℓ} : {A : Type ℓ} → List (List A) → ℕ
first_length [] = 0
first_length (shard ∷ shards) = length shard * 2

-- The comparison of len(in[0]) with len(out[0]), which panics where one of them has no shards.
unfoldable pub first_lengths_match {ℓ} : {A : Type ℓ} → List (List A) → List (List A) → Bool
first_lengths_match [] out = false
first_lengths_match (shard ∷ shards) [] = false
first_lengths_match (shard ∷ shards) (row ∷ rows) = length shard * 2 == length row * 2

-- The share of a goroutine, made a multiple of the divisor.
unfoldable pub round_up : ℕ → ℕ → ℕ
round_up share divisor =
    let rem = share % divisor in if not (rem == 0) then share + (divisor - rem) else share

unfoldable pub per_goroutine_length : ℕ → ℕ → ℕ → ℕ → ℕ
per_goroutine_length total_length num_goroutines min_length divisor =
    let share = (total_length + num_goroutines - 1) / num_goroutines in
    round_up (if ltb share min_length then min_length else share) divisor

unfoldable pub calculate_parallel_params : ℕ → ℕ → ℕ → ℕ → ℕ × ℕ
calculate_parallel_params total_length num_goroutines min_length divisor =
    let per = per_goroutine_length total_length num_goroutines min_length divisor in
    (per, (total_length + per - 1) / per)

module _ (K : Field) where
  open K use {F}

  -- The inner loop of applyMatrixSlice, from the shard of the index `j` on.
  unfoldable pub add_inputs : Matrix F → ℕ → ℕ → ℕ → ℕ → List (List F) → List F → List F
  add_inputs m i start end j [] out_slice = out_slice
  add_inputs m i start end j (shard ∷ shards) out_slice =
      add_inputs m i start end (j + 1) shards
        (mul_and_add_slice K (elem K m i j) (slice_shard start end shard) out_slice)

  -- The slice that applyMatrixSlice writes for the row `i`.
  unfoldable pub out_slice : Matrix F → ℕ → ℕ → ℕ → List (List F) → List F
  out_slice m i start end [] = []
  out_slice m i start end (shard ∷ shards) =
      add_inputs m i start end 1 shards (mul_slice K (elem K m i 0) (slice_shard start end shard))

  -- The outer loop, with `count` rows left, at the row `i`.
  unfoldable pub apply_matrix_slice :
      Matrix F → List (List F) → ℕ → ℕ → ℕ → ℕ → List (List F) → List (List F)
  apply_matrix_slice m input zero i start end out = out
  apply_matrix_slice m input (suc count) i start end out =
      apply_matrix_slice m input count (i + 1) start end
        (set out i (write_shard start end (out_slice m i start end input) (get_or out i [])))

  -- The checks of the indices at the row `i`, from the shard of the index `j` on: those of At, and
  -- that of a shard that is sliced up to `end`; a shard is taken to have no capacity past its length.
  unfoldable pub shards_in_range : Matrix F → ℕ → ℕ → ℕ → List (List F) → Bool
  shards_in_range m i end j [] = true
  shards_in_range m i end j (shard ∷ shards) =
      (ltb i m.rows && ltb j m.columns)
      && (leb end (length shard * 2) && shards_in_range m i end (j + 1) shards)

  -- The checks of all rows that are written, from the row `i` on.
  unfoldable pub rows_in_range : Matrix F → List (List F) → ℕ → ℕ → List (List F) → Bool
  rows_in_range m input end i [] = true
  rows_in_range m input end i (row ∷ rows) =
      leb end (length row * 2)
      && (shards_in_range m i end 0 input && rows_in_range m input end (i + 1) rows)

  -- `none` is a panic, that of a check among them.
  unfoldable pub apply_matrix_single :
      Matrix F → List (List F) → List (List F) → Option (List (List F))
  apply_matrix_single m input out =
      if not (first_lengths_match input out)
      then none
      else if not (rows_in_range m input (first_length input) 0 out)
      then none
      else some (apply_matrix_slice m input (length out) 0 0 (first_length input) out)

  -- What the goroutine `i` of applyMatrixParallelData does.
  unfoldable pub data_goroutine : Matrix F → List (List F) → ℕ → ℕ → List (List F) → List (List F)
  data_goroutine m input per i out =
      let data_length = first_length out in
      let start = i * per in
      let end = if ltb data_length (start + per) then data_length else start + per in
      apply_matrix_slice m input (length out) 0 start end out

  -- The goroutines write apart from each other; they run in the order `order`.
  unfoldable pub run_goroutines :
      Matrix F → List (List F) → ℕ → List ℕ → List (List F) → List (List F)
  run_goroutines m input per [] out = out
  run_goroutines m input per (i ∷ order) out =
      run_goroutines m input per order (data_goroutine m input per i out)

  -- applyMatrixParallelData, with an order for each number of goroutines. Every goroutine reads the
  -- whole matrix, and together they slice the shards to their ends, so one of them panics where the
  -- checks of a single loop fail.
  unfoldable pub apply_matrix_parallel_data :
      (ℕ → List ℕ) → Matrix F → List (List F) → List (List F) → ℕ → Option (List (List F))
  apply_matrix_parallel_data schedule m input out num_goroutines =
      if not (first_lengths_match input out)
      then none
      else if ltb num_goroutines 1
      then none
      else if not (rows_in_range m input (first_length input) 0 out)
      then none
      else let (per, count) = calculate_parallel_params (first_length out) num_goroutines 16 16 in
        if ltb count 2
        then apply_matrix_single m input out
        else some (run_goroutines m input per (schedule count) out)

  -- What the goroutine `i` of applyMatrixParallelOut does: the rows of its share, whole.
  unfoldable pub out_goroutine : Matrix F → List (List F) → ℕ → ℕ → List (List F) → List (List F)
  out_goroutine m input per i out =
      let out_length = length out in
      let start = i * per in
      let end = if ltb out_length (start + per) then out_length else start + per in
      apply_matrix_slice m input (end - start) start 0 (first_length input) out

  unfoldable pub run_out_goroutines :
      Matrix F → List (List F) → ℕ → List ℕ → List (List F) → List (List F)
  run_out_goroutines m input per [] out = out
  run_out_goroutines m input per (i ∷ order) out =
      run_out_goroutines m input per order (out_goroutine m input per i out)

  -- Every goroutine slices the shards to their ends, and together they read the rows of the matrix.
  unfoldable pub apply_matrix_parallel_out :
      (ℕ → List ℕ) → Matrix F → List (List F) → List (List F) → ℕ → Option (List (List F))
  apply_matrix_parallel_out schedule m input out num_goroutines =
      if not (first_lengths_match input out)
      then none
      else if ltb num_goroutines 1
      then none
      else if not (rows_in_range m input (first_length input) 0 out)
      then none
      else let (per, count) = calculate_parallel_params (length out) num_goroutines 1 1 in
        if ltb count 2
        then apply_matrix_single m input out
        else some (run_out_goroutines m input per (schedule count) out)
