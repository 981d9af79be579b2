-- ===== src/Rsec16/Matrix/Parallel.antt =====
-- applyMatrixParallelData writes what applyMatrixSingle does, in whichever order its goroutines
-- run.
use gopar.Common.{
  ℕ, ◌+◌, ◌-◌, ◌*◌, ◌/◌, ◌%◌, ◌<◌, ◌≤◌, ◌≡◌, refl, sym, ap, ◌∙◌, ltb, leb, not, Bool-cases, true,
  false, suc, inl, inr, some, List, [], ◌∷◌, length, get_or, All, Mem, arith, get_or_ext,
}
use native.Mathlib.Decide.{dec_lt}
use native.Mathlib.Nat.{mul-le-mul_right, div-add-mod', mod-lt}
use gopar.Gf2p16.Algebra.{Field}
use gopar.Gf2p16.Matrix.{Matrix}
use gopar.Rsec16.Matrix.{
  first_length, first_lengths_match, shards_in_range, rows_in_range, per_goroutine_length,
  calculate_parallel_params, apply_matrix_slice, apply_matrix_single, data_goroutine,
  run_goroutines, apply_matrix_parallel_data,
}
use gopar.Rsec16.Matrix.Shares.{
  IsSchedule, per_goroutine_length-even, even_product, shares-cover, All-starts,
}
use gopar.Rsec16.Matrix.Product.{HaveLength}
use gopar.Rsec16.Matrix.Writes.{cell, Holds, Keeps, HaveLength-get_or, apply_matrix_slice-product}

module _ (K : Field) where
  open K use {F, zero as o}

  -- Rows of one shape whose cells all hold the products are the same rows.
  pub rows_ext :
      (len : ℕ) (rows rows' : List (List F))
      → HaveLength len rows
      → HaveLength len rows'
      → length rows ≡ length rows'
      → ((a p : ℕ) → a < length rows → p < len → cell K rows a p ≡ cell K rows' a p)
      → rows ≡ rows'
  rows_ext len rows rows' h h' e same = get_or_ext [] rows rows' e (λ a lt.
      let size = HaveLength-get_or len a rows h lt in
      let size' = HaveLength-get_or len a rows' h' (omega arith) in
      get_or_ext o (get_or rows a []) (get_or rows' a []) (size ∙ sym size')
        (λ p small. same a p lt (omega arith)))

  module _ (m : Matrix F) (shard : List F) (shards : List (List F)) (len : ℕ)
      (input_size : HaveLength len (shard ∷ shards)) where
    pub first_length-rows :
        (out : List (List F)) → HaveLength len out → 0 < length out → first_length out ≡ len * 2
    first_length-rows [] h lt = absurd (omega arith)
    first_length-rows (row ∷ rows) h lt = omega (arith, h)

    data_goroutine-product :
        (per i : ℕ) (out : List (List F))
        → HaveLength len out
        → 0 < length out
        → per % 2 ≡ 0
        → i * per ≤ len * 2
        → Keeps K m shard shards len out (data_goroutine K m (shard ∷ shards) per i out)
          × ((a p : ℕ)
              → a < length out
              → p < len
              → i * per ≤ p * 2
              → p * 2 < i * per + per
              → Holds K m shard shards len (data_goroutine K m (shard ∷ shards) per i out) a p)
    unfolding data_goroutine
    data_goroutine-product per i out h some_rows even starts =
        let size = first_length-rows out h some_rows in
        elim (Bool-cases (ltb (first_length out) (i * per + per))) [
          | inl last ↦
              let (kept, inside) =
                apply_matrix_slice-product K m shard shards len (i * per) (first_length out)
                  input_size (omega arith) (omega arith) (length out) 0 out h (omega arith) in
              rw last (
                kept,
                λ a p row in_range from to.
                    inside a p (omega arith) (omega arith) (omega arith) (omega arith),
              )
          | inr whole ↦
              let reach : i * per + per ≤ first_length out = ground arith in
              let (kept, inside) =
                apply_matrix_slice-product K m shard shards len (i * per) (i * per + per) input_size
                  (omega arith) (omega arith) (length out) 0 out h (omega arith) in
              rw whole (
                kept,
                λ a p row in_range from to.
                    inside a p (omega arith) (omega arith) (omega arith)
                      (omega (arith, even_product i per even)),
              )
        ]

    run_goroutines-product :
        (per : ℕ) (order : List ℕ) (out : List (List F))
        → HaveLength len out
        → 0 < length out
        → per % 2 ≡ 0
        → All (λ i. i * per ≤ len * 2) order
        → Keeps K m shard shards len out (run_goroutines K m (shard ∷ shards) per order out)
          × ((i a p : ℕ)
              → Mem i order
              → a < length out
              → p < len
              → i * per ≤ p * 2
              → p * 2 < i * per + per
              → Holds K m shard shards len (run_goroutines K m (shard ∷ shards) per order out) a p)
    unfolding run_goroutines
    run_goroutines-product per [] out h some_rows even start = (
      record { sizes = h; rows = refl; holds = λ a p held. held },
      λ i a p member row col from to. absurd member,
    )
    run_goroutines-product per (g ∷ order) out h some_rows even start =
        let (kept, inside) = data_goroutine-product per g out h some_rows even start.0 in
        let out1 = data_goroutine K m (shard ∷ shards) per g out in
        let rows1 : length out1 ≡ length out = kept.rows in
        let (kept_rest, inside_rest) =
          run_goroutines-product per order out1 kept.sizes (omega arith) even start.1 in
        (
          record {
            sizes = kept_rest.sizes;
            rows = kept_rest.rows ∙ rows1;
            holds = λ a p held. kept_rest.holds a p (kept.holds a p held);
          },
          λ i a p member row col from to. elim member [
            | inl same ↦
                let place : i * per ≡ g * per = ap (λ (n : ℕ). n * per) same in
                kept_rest.holds a p (inside a p row col (omega arith) (omega arith))
            | inr later ↦ inside_rest i a p later (omega arith) col from to
          ],
        )

    -- The result of applyMatrixSingle: the rows keep their shape, and every cell is the product of
    -- its row of the matrix with the column of the shards.
    abbrev pub IsProduct : List (List F) → List (List F) → Type 0
    IsProduct out out' =
        HaveLength len out'
        × ((length out' ≡ length out)
            × ((a p : ℕ) → a < length out → p < len → Holds K m shard shards len out' a p))

    pub first_lengths_match-rows :
        (out : List (List F))
        → HaveLength len out
        → 0 < length out
        → first_lengths_match (shard ∷ shards) out ≡ true
    unfolding first_lengths_match
    first_lengths_match-rows [] h lt = absurd (omega arith)
    first_lengths_match-rows (row ∷ rows) h lt = ground (arith, input_size.0, h.0)

    shards_in_range-true :
        (i end j : ℕ) (input : List (List F))
        → HaveLength len input
        → end ≤ len * 2
        → i < m.rows
        → j + length input ≤ m.columns
        → shards_in_range K m i end j input ≡ true
    unfolding shards_in_range
    shards_in_range-true i end j [] h inside row fit = refl
    shards_in_range-true i end j (s ∷ ss) h inside row fit =
        ground (arith, h.0, shards_in_range-true i end (j + 1) ss h.1 inside row (omega arith))

    rows_in_range-true :
        (end i : ℕ) (out : List (List F))
        → HaveLength len out
        → end ≤ len * 2
        → i + length out ≤ m.rows
        → suc (length shards) ≤ m.columns
        → rows_in_range K m (shard ∷ shards) end i out ≡ true
    unfolding rows_in_range
    rows_in_range-true end i [] h inside fit columns = refl
    rows_in_range-true end i (row ∷ rows) h inside fit columns =
        let first =
          shards_in_range-true i end 0 (shard ∷ shards) input_size inside (omega arith)
            (omega arith) in
        let later = rows_in_range-true end (i + 1) rows h.1 inside (omega arith) columns in
        let whole : leb end (length row * 2) ≡ true = ground (arith, h.0) in rw (whole, first) later

    pub apply_matrix_slice-IsProduct :
        (out : List (List F))
        → HaveLength len out
        → 0 < length out
        → IsProduct out
            (apply_matrix_slice K m (shard ∷ shards) (length out) 0 0 (length shard * 2) out)
    apply_matrix_slice-IsProduct out h some_rows =
        let size_in : length shard * 2 ≡ len * 2 = omega (arith, input_size) in
        let (kept, inside) =
          apply_matrix_slice-product K m shard shards len 0 (length shard * 2) input_size
            (omega arith) (omega arith) (length out) 0 out h (omega arith) in
        (
          kept.sizes,
          (
            kept.rows,
            λ a p row col. inside a p (omega arith) (omega arith) (omega arith) (omega arith),
          ),
        )

    -- On output shards of the length of the input shards, and with a row of the matrix for each of
    -- them and a column for each input shard, applyMatrixSingle does not panic, and each element
    -- that it writes is the product of a row of the matrix with a column of the input.
    pub apply_matrix_single-IsProduct :
        (out : List (List F))
        → HaveLength len out
        → 0 < length out
        → length out ≤ m.rows
        → suc (length shards) ≤ m.columns
        → (out' : List (List F)) × (apply_matrix_single K m (shard ∷ shards) out ≡ some out')
          × IsProduct out out'
    unfolding apply_matrix_single
    apply_matrix_single-IsProduct out h some_rows fit columns =
        let matched : (not (first_lengths_match (shard ∷ shards) out)) ≡ false =
          ap not (first_lengths_match-rows out h some_rows) in
        let in_range : (not (rows_in_range K m (shard ∷ shards) (length shard * 2) 0 out)) ≡ false =
          ap not (
            rows_in_range-true (length shard * 2) 0 out h (omega (arith, input_size)) (omega arith)
              columns) in
        (
          apply_matrix_slice K m (shard ∷ shards) (length out) 0 0 (length shard * 2) out,
          rw (matched, in_range),
          apply_matrix_slice-IsProduct out h some_rows,
        )

    pub product_unique :
        (out out1 out2 : List (List F)) → IsProduct out out1 → IsProduct out out2 → out1 ≡ out2
    product_unique out out1 out2 h1 h2 =
        rows_ext len out1 out2 h1.0 h2.0 (h1.1.0 ∙ sym h2.1.0) (λ a p row col.
          let rows1 : length out1 ≡ length out = h1.1.0 in
          h1.1.1 a p (omega arith) col ∙ sym (h2.1.1 a p (omega arith) col))

    run_goroutines-IsProduct :
        (schedule : ℕ → List ℕ) (per : ℕ) (out : List (List F))
        → IsSchedule schedule
        → HaveLength len out
        → 0 < length out
        → per % 2 ≡ 0
        → 0 < per
        → let count = (len * 2 + per - 1) / per in
          IsProduct out (run_goroutines K m (shard ∷ shards) per (schedule count) out)
    run_goroutines-IsProduct schedule per out all h some_rows even pos =
        let count = (len * 2 + per - 1) / per in
        let (last, reach) = shares-cover (len * 2) per pos in
        let (kept, inside) =
          run_goroutines-product per (schedule count) out h some_rows even
            (All-starts (len * 2) per count (schedule count) last (all.only count)) in
        (
          kept.sizes,
          (
            kept.rows,
            λ a p row col.
                let g = p * 2 / per in
                let parts : g * per + p * 2 % per ≡ p * 2 = div-add-mod' (p * 2) per in
                let small = mod-lt (p * 2) pos in
                let early : g < count = elim (dec_lt g count) [
                  | yes lt ↦ lt
                  | no ge ↦
                      let late : count * per ≤ g * per = mul-le-mul_right per (omega arith) in
                      absurd (omega arith)
                ] in
                inside g a p (all.starts count g early) row col (omega arith) (omega arith),
          ),
        )

    -- On output shards of the length of the input shards, with one goroutine or more that run one
    -- after the other in any order, applyMatrixParallelData does what applyMatrixSingle does.
    pub apply_matrix_parallel_data-single :
        (schedule : ℕ → List ℕ) (out : List (List F)) (num_goroutines : ℕ)
        → IsSchedule schedule
        → HaveLength len out
        → 0 < length out
        → 0 < num_goroutines
        → apply_matrix_parallel_data K schedule m (shard ∷ shards) out num_goroutines
          ≡ apply_matrix_single K m (shard ∷ shards) out
    unfolding apply_matrix_parallel_data apply_matrix_single calculate_parallel_params
    apply_matrix_parallel_data-single schedule out num_goroutines all h some_rows some_goroutines =
        let size = first_length-rows out h some_rows in
        let matched : (not (first_lengths_match (shard ∷ shards) out)) ≡ false =
          ap not (first_lengths_match-rows out h some_rows) in
        let started : ltb num_goroutines 1 ≡ false = ground arith in
        let per = per_goroutine_length (len * 2) num_goroutines 16 16 in
        let (even, pos) = per_goroutine_length-even (len * 2) num_goroutines in
        let parallel =
          product_unique out _ _
            (run_goroutines-IsProduct schedule per out all h some_rows even pos)
            (apply_matrix_slice-IsProduct out h some_rows) in
        elim (Bool-cases (not (rows_in_range K m (shard ∷ shards) (length shard * 2) 0 out))) [
          | inl outside ↦ rw (matched, started, outside)
          | inr in_range ↦ elim (Bool-cases (ltb ((len * 2 + per - 1) / per) 2)) [
            | inl few ↦ rw (matched, started, in_range, size, few)
            | inr many ↦ rw (matched, started, in_range, size, many) (ap some parallel)
          ]
        ]
