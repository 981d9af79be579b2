-- ===== src/Rsec16/Matrix/ParallelOut.antt =====
-- applyMatrixParallelOut writes what applyMatrixSingle does, in whichever order its goroutines run.
use gopar.Common.{
  ℕ, ◌+◌, ◌-◌, ◌*◌, ◌/◌, ◌%◌, ◌<◌, ◌≤◌, ◌≡◌, refl, ap, ◌∙◌, ltb, not, Bool-cases, false, inl, inr,
  some, List, [], ◌∷◌, length, All, Mem, arith,
}
use native.Mathlib.Decide.{dec_lt}
use native.Mathlib.Nat.{mul-le-mul_right, div-add-mod', mod-lt}
use gopar.Gf2p16.Algebra.{Field}
use gopar.Gf2p16.Matrix.{Matrix}
use gopar.Rsec16.Matrix.{
  first_lengths_match, rows_in_range, per_goroutine_length, calculate_parallel_params,
  apply_matrix_single, out_goroutine, run_out_goroutines, apply_matrix_parallel_out,
}
use gopar.Rsec16.Matrix.Shares.{IsSchedule, per_goroutine_length-pos, shares-cover, All-starts}
use gopar.Rsec16.Matrix.Product.{HaveLength}
use gopar.Rsec16.Matrix.Writes.{Holds, Keeps, apply_matrix_slice-product}
use gopar.Rsec16.Matrix.Parallel.{
  IsProduct, first_lengths_match-rows, product_unique, apply_matrix_slice-IsProduct,
}

module _ (K : Field) where
  open K use {F}

  module _ (m : Matrix F) (shard : List F) (shards : List (List F)) (len : ℕ)
      (input_size : HaveLength len (shard ∷ shards)) where
    out_goroutine-product :
        (per i : ℕ) (out : List (List F))
        → HaveLength len out
        → i * per ≤ length out
        → Keeps K m shard shards len out (out_goroutine K m (shard ∷ shards) per i out)
          × ((a p : ℕ)
              → a < length out
              → p < len
              → i * per ≤ a
              → a < i * per + per
              → Holds K m shard shards len (out_goroutine K m (shard ∷ shards) per i out) a p)
    unfolding out_goroutine
    out_goroutine-product per i out h starts =
        let size : length shard * 2 ≡ len * 2 = omega (arith, input_size) in
        let write =
          apply_matrix_slice-product K m shard shards len 0 (length shard * 2) input_size
            (omega arith) (omega arith) in
        elim (Bool-cases (ltb (length out) (i * per + per))) [
          | inl last ↦
              let (kept, inside) = write (length out - i * per) (i * per) out h (omega arith) in
              rw last (
                kept,
                λ a p row col from to. inside a p from (omega arith) (omega arith) (omega arith),
              )
          | inr whole ↦
              let reach : i * per + per ≤ length out = ground arith in
              let (kept, inside) = write (i * per + per - i * per) (i * per) out h (omega arith) in
              rw whole (
                kept,
                λ a p row col from to. inside a p from (omega arith) (omega arith) (omega arith),
              )
        ]

    run_out_goroutines-product :
        (per : ℕ) (order : List ℕ) (out : List (List F))
        → HaveLength len out
        → All (λ i. i * per ≤ length out) order
        → Keeps K m shard shards len out (run_out_goroutines K m (shard ∷ shards) per order out)
          × ((i a p : ℕ)
              → Mem i order
              → a < length out
              → p < len
              → i * per ≤ a
              → a < i * per + per
              → Holds K m shard shards len
                  (run_out_goroutines K m (shard ∷ shards) per order out)
                  a
                  p)
    unfolding run_out_goroutines
    run_out_goroutines-product per [] out h start = (
      record { sizes = h; rows = refl; holds = λ a p held. held },
      λ i a p member row col from to. absurd member,
    )
    run_out_goroutines-product per (g ∷ order) out h start =
        let (kept, inside) = out_goroutine-product per g out h start.0 in
        let out1 = out_goroutine K m (shard ∷ shards) per g out in
        let rows1 : length out1 ≡ length out = kept.rows in
        let (kept_rest, inside_rest) =
          run_out_goroutines-product per order out1 kept.sizes (rw rows1 start.1) in
        (
          record {
            sizes = kept_rest.sizes;
            rows = kept_rest.rows ∙ rows1;
            holds = λ a p held. kept_rest.holds a p (kept.holds a p held);
          },
          λ i a p member row col from to. elim member [
            | inl same ↦
                let place : i * per ≡ g * per = ap (λ (n : ℕ). n * per) same in
                kept_rest.holds a p (inside a p row col (omega arith) (omega arith))
            | inr later ↦ inside_rest i a p later (omega arith) col from to
          ],
        )

    run_out_goroutines-IsProduct :
        (schedule : ℕ → List ℕ) (per : ℕ) (out : List (List F))
        → IsSchedule schedule
        → HaveLength len out
        → 0 < per
        → let count = (length out + per - 1) / per in
          IsProduct K m shard shards len input_size out
            (run_out_goroutines K m (shard ∷ shards) per (schedule count) out)
    run_out_goroutines-IsProduct schedule per out all h pos =
        let count = (length out + per - 1) / per in
        let (last, reach) = shares-cover (length out) per pos in
        let (kept, inside) =
          run_out_goroutines-product per (schedule count) out h
            (All-starts (length out) per count (schedule count) last (all.only count)) in
        (
          kept.sizes,
          (
            kept.rows,
            λ a p row col.
                let g = a / per in
                let parts : g * per + a % per ≡ a = div-add-mod' a per in
                let small = mod-lt a pos in
                let early : g < count = elim (dec_lt g count) [
                  | yes lt ↦ lt
                  | no ge ↦
                      let late : count * per ≤ g * per = mul-le-mul_right per (omega arith) in
                      absurd (omega arith)
                ] in
                inside g a p (all.starts count g early) row col (omega arith) (omega arith),
          ),
        )

    -- On output shards of the length of the input shards, with one goroutine or more that run one
    -- after the other in any order, applyMatrixParallelOut does what applyMatrixSingle does.
    pub apply_matrix_parallel_out-single :
        (schedule : ℕ → List ℕ) (out : List (List F)) (num_goroutines : ℕ)
        → IsSchedule schedule
        → HaveLength len out
        → 0 < length out
        → 0 < num_goroutines
        → apply_matrix_parallel_out K schedule m (shard ∷ shards) out num_goroutines
          ≡ apply_matrix_single K m (shard ∷ shards) out
    unfolding apply_matrix_parallel_out apply_matrix_single calculate_parallel_params
    apply_matrix_parallel_out-single schedule out num_goroutines all h some_rows some_goroutines =
        let matched : (not (first_lengths_match (shard ∷ shards) out)) ≡ false =
          ap not (first_lengths_match-rows K m shard shards len input_size out h some_rows) in
        let started : ltb num_goroutines 1 ≡ false = ground arith in
        let per = per_goroutine_length (length out) num_goroutines 1 1 in
        let parallel =
          product_unique K m shard shards len input_size out _ _
            (run_out_goroutines-IsProduct schedule per out all h
              (per_goroutine_length-pos (length out) num_goroutines))
            (apply_matrix_slice-IsProduct K m shard shards len input_size out h some_rows) in
        elim (Bool-cases (not (rows_in_range K m (shard ∷ shards) (length shard * 2) 0 out))) [
          | inl outside ↦ rw (matched, started, outside)
          | inr in_range ↦ elim (Bool-cases (ltb ((length out + per - 1) / per) 2)) [
            | inl few ↦ rw (matched, started, in_range, few)
            | inr many ↦ rw (matched, started, in_range, many) (ap some parallel)
          ]
        ]
