-- ===== src/Rsec16/Matrix/Writes.antt =====
-- The cells that applyMatrixSlice writes hold the product, and a cell that holds it keeps it.
use gopar.Common.{
  ℕ, zero, suc, ◌+◌, ◌-◌, ◌/◌, ◌<◌, ◌≤◌, ◌≡◌, ◌≢◌, refl, sym, ap, ◌∙◌, List, [], ◌∷◌, length,
  get_or, set, arith, length-set, get_or-set_self, get_or-set_ne,
}
use mathlib.Core.Path.{subst}
use native.Mathlib.Decide.{ℕ_discrete, dec_lt}
use gopar.Gf2p16.Algebra.{Field}
use gopar.Gf2p16.Matrix.{Matrix}
use gopar.Rsec16.Matrix.{write_shard, out_slice, apply_matrix_slice}
use gopar.Rsec16.Matrix.Product.{
  HaveLength, product, length-out_slice, out_slice-product, length-write_shard,
  get_or-write_shard_inside, get_or-write_shard_before, get_or-write_shard_after,
}

pub HaveLength-get_or :
    {A : Type 0} (len i : ℕ) (rows : List (List A))
    → HaveLength len rows
    → i < length rows
    → length (get_or rows i []) ≡ len
HaveLength-get_or len i [] h lt = absurd (omega arith)
HaveLength-get_or len zero (row ∷ rows) h lt = h.0
HaveLength-get_or len (suc i) (row ∷ rows) h lt = HaveLength-get_or len i rows h.1 (omega arith)

HaveLength-set :
    {A : Type 0} (len i : ℕ) (row : List A) (rows : List (List A))
    → HaveLength len rows
    → length row ≡ len
    → HaveLength len (set rows i row)
HaveLength-set len i row [] h e = tt
HaveLength-set len zero row (old ∷ rows) h e = (e, h.1)
HaveLength-set len (suc i) row (old ∷ rows) h e = (h.0, HaveLength-set len i row rows h.1 e)

module _ (K : Field) where
  open K use {F, zero as o}

  abbrev pub cell : List (List F) → ℕ → ℕ → F
  cell rows a p = get_or (get_or rows a []) p o

  module _ (m : Matrix F) (shard : List F) (shards : List (List F)) (len : ℕ) where
    -- A cell that holds its product.
    abbrev pub Holds : List (List F) → ℕ → ℕ → Type 0
    Holds out a p = cell out a p ≡ product K m (shard ∷ shards) a p

    -- Rows that are written keep their shape, and the products that they hold.
    pub record Keeps (out out' : List (List F)) : Type 0 where
      pub sizes : HaveLength len out'
      pub rows : length out' ≡ length out
      pub holds : (a p : ℕ) → Holds out a p → Holds out' a p

    module _ (start end : ℕ) (input_size : HaveLength len (shard ∷ shards))
        (ordered : start / 2 ≤ end / 2) (inside : end / 2 ≤ len) where
      abbrev row : ℕ → List (List F) → List F
      row i out =
          write_shard start end (out_slice K m i start end (shard ∷ shards)) (get_or out i [])

      written_size :
          (i : ℕ) → length (out_slice K m i start end (shard ∷ shards)) ≡ end / 2 - start / 2
      written_size i = length-out_slice K m i start end len shard shards inside input_size

      length-row :
          (i : ℕ) (out : List (List F))
          → HaveLength len out
          → i < length out
          → length (row i out) ≡ len
      length-row i out h lt =
          let size = HaveLength-get_or len i out h lt in
          length-write_shard start end (out_slice K m i start end (shard ∷ shards))
            (get_or out i []) o ordered (omega (arith, size)) (written_size i)
          ∙ size

      row_inside :
          (i p : ℕ) (out : List (List F))
          → HaveLength len out
          → i < length out
          → start / 2 ≤ p
          → p < end / 2
          → get_or (row i out) p o ≡ product K m (shard ∷ shards) i p
      row_inside i p out h lt low high =
          let size = HaveLength-get_or len i out h lt in
          let k = p - start / 2 in
          let place : start / 2 + k ≡ p = omega arith in
          ap (λ (n : ℕ). get_or (row i out) n o) (sym place)
          ∙ get_or-write_shard_inside start end (out_slice K m i start end (shard ∷ shards))
              (get_or out i []) o ordered (omega (arith, size)) (written_size i) k (omega arith)
          ∙ out_slice-product K m i start end len k inside (omega arith) shard shards input_size
          ∙ ap (product K m (shard ∷ shards) i) place

      row_outside :
          (i p : ℕ) (out : List (List F))
          → HaveLength len out
          → i < length out
          → (start / 2 ≤ p → end / 2 ≤ p)
          → get_or (row i out) p o ≡ cell out i p
      row_outside i p out h lt away =
          let size = HaveLength-get_or len i out h lt in
          let new = out_slice K m i start end (shard ∷ shards) in
          elim (dec_lt p (start / 2)) [
            | yes before ↦
                get_or-write_shard_before start end new (get_or out i []) o ordered
                  (omega (arith, size)) (written_size i) p before
            | no after ↦
                get_or-write_shard_after start end new (get_or out i []) o ordered
                  (omega (arith, size)) (written_size i) p (away (omega arith))
          ]

      row_keeps :
          (i p : ℕ) (out : List (List F))
          → HaveLength len out
          → i < length out
          → Holds out i p
          → get_or (row i out) p o ≡ product K m (shard ∷ shards) i p
      row_keeps i p out h lt held = elim (dec_lt p (start / 2)) [
        | yes before ↦ row_outside i p out h lt (λ low. absurd (omega arith)) ∙ held
        | no after ↦ elim (dec_lt p (end / 2)) [
          | yes within ↦ row_inside i p out h lt (omega arith) within
          | no beyond ↦ row_outside i p out h lt (λ low. omega arith) ∙ held
        ]
      ]

      -- One row written: the others stay, and this one is as `row` says.
      step_other :
          (i a p : ℕ) (out : List (List F))
          → i ≢ a
          → cell (set out i (row i out)) a p ≡ cell out a p
      step_other i a p out other =
          ap (λ r. get_or r p o) (get_or-set_ne out i a (row i out) [] other)

      step_self :
          (i p : ℕ) (out : List (List F))
          → i < length out
          → cell (set out i (row i out)) i p ≡ get_or (row i out) p o
      step_self i p out lt = ap (λ r. get_or r p o) (get_or-set_self out i (row i out) [] lt)

      step_keeps :
          (i a p : ℕ) (out : List (List F))
          → HaveLength len out
          → i < length out
          → Holds out a p
          → Holds (set out i (row i out)) a p
      step_keeps i a p out h lt held = elim (ℕ_discrete i a) [
        | no other ↦ step_other i a p out other ∙ held
        | yes same ↦
            subst (λ (n : ℕ). Holds out n p → Holds (set out i (row i out)) n p) same
              (λ here. step_self i p out lt ∙ row_keeps i p out h lt here) held
      ]

      -- The loop over the rows keeps the shape and the products, and gives the rows of its range
      -- their products at the offsets of its slice.
      pub apply_matrix_slice-product :
          (count i : ℕ) (out : List (List F))
          → HaveLength len out
          → i + count ≤ length out
          → Keeps out (apply_matrix_slice K m (shard ∷ shards) count i start end out)
            × ((a p : ℕ)
                → i ≤ a
                → a < i + count
                → start / 2 ≤ p
                → p < end / 2
                → Holds (apply_matrix_slice K m (shard ∷ shards) count i start end out) a p)
      unfolding apply_matrix_slice
      apply_matrix_slice-product zero i out h fits = (
        record { sizes = h; rows = refl; holds = λ a p held. held },
        λ a p low high from to. absurd (omega arith),
      )
      apply_matrix_slice-product (suc count) i out h fits =
          let here : i < length out = omega arith in
          let out1 = set out i (row i out) in
          let rows1 : length out1 ≡ length out = length-set out i (row i out) in
          let (kept, inside_rest) =
            apply_matrix_slice-product count (i + 1) out1
              (HaveLength-set len i (row i out) out h (length-row i out h here)) (omega arith) in
          (
            record {
              sizes = kept.sizes;
              rows = kept.rows ∙ rows1;
              holds = λ a p held. kept.holds a p (step_keeps i a p out h here held);
            },
            λ a p low high from to. elim (ℕ_discrete i a) [
              | no other ↦ inside_rest a p (omega arith) (omega arith) from to
              | yes same ↦ kept.holds a p (
                  subst (λ (n : ℕ). Holds out1 n p) same
                    (step_self i p out here ∙ row_inside i p out h here from to))
            ],
          )
