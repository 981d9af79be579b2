-- ===== src/Rsec16/Reconstruct/Data.antt =====
-- What ReconstructData returns is the data, whole.
use gopar.Common.{
  none, ℕ, zero, suc, ◌+◌, ◌-◌, ◌<◌, ◌≤◌, ◌≡◌, refl, sym, ap, ◌∙◌, ◌==◌, ltb, Option, some, List,
  [], ◌∷◌, ◌++◌, length, get_or, map, replicate, arith, get_or-append_left, get_or-append_right,
  length-append, Bool-cases, inl, inr, ◌⊎◌,
}
use native.Mathlib.Decide.{dec_lt}
use gopar.Gf2p16.Algebra.{Field, sum, sum_ext}
use gopar.Gf2p16.Matrix.{Matrix, Outcome, panic, singular, done, elem}
use gopar.Gf2p16.Matrix.Solutions.{HasShape, apply}
use gopar.Rsec16.Coder.{Coder, apply_matrix, first_shard, apply_matrix-product}
use gopar.Rsec16.Matrix.Shares.{IsSchedule}
use gopar.Rsec16.Matrix.Product.{HaveLength, product}
use gopar.Rsec16.Matrix.Parallel.{rows_ext}
use gopar.Rsec16.Reconstruct.{
  available_rows, missing_rows, available_shards, used_parity_rows, used_parity_shards, put_missing,
  make_reconstruction_matrix, Reconstruction, not_enough_parity_shards, singular_matrix,
  reconstructed, reconstruct_missing, reconstruct_data,
}
use gopar.Rsec16.Reconstruct.Erasures.{
  Erased, whole, length-available_shards, get_or-available_shards, length-used_parity_shards,
  get_or-used_parity_shards, length-rows, sum_rows, put_missing-whole,
}
use gopar.Rsec16.Reconstruct.Recovery.{
  InRange, make-HasShape, known-missing, make-solution, make-no_panic, columns,
}

Outcome-cases :
    (K : Field) (r : Outcome K) → (r ≡ panic) ⊎ ((r ≡ singular) ⊎ ((n : Matrix K.F) × (r ≡ done n)))
Outcome-cases K panic = inl refl
Outcome-cases K singular = inr (inl refl)
Outcome-cases K (done n) = inr (inr (n, refl))

reconstructed-injective :
    (K : Field) (a b : List (Option (List K.F)))
    → ◌≡◌ {A = Reconstruction K} (reconstructed a) (reconstructed b)
    → a ≡ b
reconstructed-injective K a b h = ground arith

HaveLength-each :
    {A : Type 0} (len : ℕ) (rows : List (List A))
    → ((j : ℕ) → j < length rows → length (get_or rows j []) ≡ len)
    → HaveLength len rows
HaveLength-each len [] h = tt
HaveLength-each len (row ∷ rows) h =
    (h 0 (omega arith), HaveLength-each len rows (λ j lt. h (suc j) (omega arith)))

length-map : {A : Type 0} (f : ℕ → A) (ns : List ℕ) → length (map f ns) ≡ length ns
length-map f [] = refl
length-map f (n ∷ ns) = ap suc (length-map f ns)

get_or-map :
    {A : Type 0} (f : ℕ → A) (ns : List ℕ) (j : ℕ) (d : A)
    → j < length ns
    → get_or (map f ns) j d ≡ f (get_or ns j 0)
get_or-map f [] j d lt = absurd (omega arith)
get_or-map f (n ∷ ns) zero d lt = refl
get_or-map f (n ∷ ns) (suc j) d lt = get_or-map f ns j d (omega arith)

available_rows-lt :
    {S : Type 0} (i j : ℕ) (rows : List (Option S))
    → j < length (available_rows i rows)
    → get_or (available_rows i rows) j 0 < i + length rows
unfolding available_rows
available_rows-lt i j [] lt = absurd (omega arith)
available_rows-lt i j (none ∷ rows) lt = omega (arith, available_rows-lt (i + 1) j rows lt)
available_rows-lt i zero (some shard ∷ rows) lt = omega arith
available_rows-lt i (suc j) (some shard ∷ rows) lt =
    let later = available_rows-lt (i + 1) j rows (omega arith) in omega arith

missing_rows-lt :
    {S : Type 0} (i j : ℕ) (rows : List (Option S))
    → j < length (missing_rows i rows)
    → get_or (missing_rows i rows) j 0 < i + length rows
unfolding missing_rows
missing_rows-lt i j [] lt = absurd (omega arith)
missing_rows-lt i j (some shard ∷ rows) lt = omega (arith, missing_rows-lt (i + 1) j rows lt)
missing_rows-lt i zero (none ∷ rows) lt = omega arith
missing_rows-lt i (suc j) (none ∷ rows) lt =
    let later = missing_rows-lt (i + 1) j rows (omega arith) in omega arith

no_rows : (ns : List ℕ) → length ns ≡ 0 → ns ≡ []
no_rows [] h = refl
no_rows (n ∷ ns) h = absurd (omega arith)

module _ (K : Field) (schedule : ℕ → List ℕ) (all : IsSchedule schedule) where
  open K use {F, zero as o, add, mul}

  module _ (c : Coder F) (data_shard parity_shard : ℕ → List F)
      (rows parity : List (Option (List F))) (len : ℕ) (counted : length rows ≡ c.data_shards)
      (some_goroutines : 0 < c.num_goroutines) (data_length : (i : ℕ) → length (data_shard i) ≡ len)
      (parity_length : (i : ℕ) → i < length parity → length (parity_shard i) ≡ len)
      (generated : (i p : ℕ)
        → i < length parity
        → p < len
        → get_or (parity_shard i) p o
          ≡ sum K c.data_shards (λ a. mul (elem K c.parity_matrix i a) (get_or (data_shard a) p o)))
      (rows_erased : Erased data_shard 0 rows) (parity_erased : Erased parity_shard 0 parity)
      (shape : HasShape c.parity_shards c.data_shards c.parity_matrix)
      (few_parity : length parity ≤ c.parity_shards) where
    abbrev available : List ℕ
    available = available_rows 0 rows

    abbrev missing : List ℕ
    missing = missing_rows 0 rows

    abbrev need : ℕ
    need = c.data_shards - length (available_shards rows)

    abbrev used : List ℕ
    used = used_parity_rows need 0 parity

    abbrev input : List (List F)
    input = available_shards rows ++ used_parity_shards need parity

    -- The elements of the input at `p`.
    abbrev column : ℕ → ℕ → F
    column p j = get_or (get_or input j []) p o

    available_size : length (available_shards rows) ≡ length available
    available_size = length-available_shards data_shard 0 rows

    used_size : length (used_parity_shards need parity) ≡ length used
    used_size = (length-used_parity_shards parity_shard need 0 parity).0

    input_size : length input ≡ length available + length used
    input_size =
        length-append (available_shards rows) (used_parity_shards need parity)
        ∙ omega (arith, available_size, used_size)

    column-available :
        (p j : ℕ)
        → j < length available
        → column p j ≡ get_or (data_shard (get_or available j 0)) p o
    column-available p j lt =
        ap (λ s. get_or s p o)
          (get_or-append_left (available_shards rows) (used_parity_shards need parity) j []
              (omega (arith, available_size))
            ∙ get_or-available_shards data_shard 0 j rows [] rows_erased lt)

    column-used :
        (p i : ℕ)
        → i < length used
        → column p (length available + i) ≡ get_or (parity_shard (get_or used i 0)) p o
    column-used p i lt =
        ap (λ s. get_or s p o)
          (ap (λ (n : ℕ). get_or input (n + i) []) (sym available_size)
            ∙ get_or-append_right (available_shards rows) (used_parity_shards need parity) i []
            ∙ (get_or-used_parity_shards parity_shard need 0 i parity [] parity_erased lt).0)

    used_row : (i : ℕ) → i < length used → get_or used i 0 < length parity
    used_row i lt =
        let found = get_or-used_parity_shards parity_shard need 0 i parity [] parity_erased lt in
        omega (arith, found.1)

    in_range : length missing ≡ length used → InRange K c.parity_matrix available missing used
    in_range as_many = record {
      used_row = λ i lt. omega (arith, used_row i lt, shape.rows_eq);
      known_column = λ j lt. omega (arith, available_rows-lt 0 j rows lt, shape.columns_eq);
      unknown_column = λ j lt. omega (arith, missing_rows-lt 0 j rows lt, shape.columns_eq);
      as_many = omega arith;
    }

    -- The reconstruction matrix takes the input to the missing elements.
    recovered :
        (n' : Matrix F) (p : ℕ)
        → length missing ≡ length used
        → 0 < length used
        → c.data_shards ≡ length available + length used
        → p < len
        → make_reconstruction_matrix K c.data_shards available missing used c.parity_matrix
          ≡ done n'
        → HasShape (length used) c.data_shards n'
          × ((a : ℕ)
              → a < length used
              → get_or (data_shard (get_or missing a 0)) p o ≡ apply K n' (column p) a)
    recovered n' p as_many some_used filled col run =
        let x = λ (a : ℕ). get_or (data_shard a) p o in
        let row = λ (i a : ℕ). mul (elem K c.parity_matrix (get_or used i 0) a) (x a) in
        let split = λ (i : ℕ) (lt : i < length used).
          generated (get_or used i 0) p (used_row i lt) col
          ∙ ap (λ (n : ℕ). sum K n (row i)) (sym counted)
          ∙ sum_ext K (length rows) _ _ (λ t lt. ap (row i) (omega arith))
          ∙ sum_rows K (row i) 0 rows in
        make-solution K c.data_shards available missing used c.parity_matrix n'
          (λ a. x (get_or missing a 0)) (column p) (in_range as_many) some_used (omega arith) run
          (λ i lt.
            ap (λ (n : ℕ). sum K n (λ j. row i (get_or missing j 0))) (sym as_many)
            ∙ sym (
                known-missing K c.parity_matrix available missing used x (column p)
                  (λ i. get_or (parity_shard (get_or used i 0)) p o) c.data_shards filled
                  (column-available p) (column-used p) split i lt))

    input_length : HaveLength len input
    input_length = HaveLength-each len input (λ j lt. elim (dec_lt j (length available)) [
      | yes there ↦
          ap length (
            get_or-append_left (available_shards rows) (used_parity_shards need parity) j []
              (omega (arith, available_size))
            ∙ get_or-available_shards data_shard 0 j rows [] rows_erased there)
          ∙ data_length (get_or available j 0)
      | no beyond ↦
          let i = j - length available in
          let in_used : i < length used = omega (arith, input_size) in
          let place : j ≡ length (available_shards rows) + i = omega (arith, available_size) in
          ap length (
            ap (λ (n : ℕ). get_or input n []) place
            ∙ get_or-append_right (available_shards rows) (used_parity_shards need parity) i []
            ∙ (get_or-used_parity_shards parity_shard need 0 i parity [] parity_erased in_used).0)
          ∙ parity_length (get_or used i 0) (used_row i in_used)
    ])

    -- The shards that are put in the missing rows are the data's.
    shards_recovered :
        (n' : Matrix F)
        → length missing ≡ length used
        → 0 < length used
        → c.data_shards ≡ length available + length used
        → make_reconstruction_matrix K c.data_shards available missing used c.parity_matrix
          ≡ done n'
        → apply_matrix K schedule c n' input
            (replicate (length missing) (replicate (length (first_shard input)) o))
          ≡ some (map data_shard missing)
    shards_recovered n' as_many some_used filled run =
        let made_shape =
          make-HasShape K c.data_shards available missing used c.parity_matrix n' (in_range as_many)
            some_used (omega arith) run in
        let (out, applied, (sizes, (count, cells))) =
          apply_matrix-product K schedule c n' input (length missing) len all input_length
            (omega (arith, input_size)) (omega arith) some_goroutines
            (omega (arith, made_shape.rows_eq))
            (omega (arith, made_shape.columns_eq, input_size)) in
        let data_size : HaveLength len (map data_shard missing) =
          HaveLength-each len (map data_shard missing) (λ j lt.
            ap length
              (get_or-map data_shard missing j [] (omega (arith, length-map data_shard missing)))
            ∙ data_length (get_or missing j 0)) in
        let same : out ≡ map data_shard missing =
          rows_ext K len out (map data_shard missing) sizes data_size
            (count ∙ sym (length-map data_shard missing))
            (λ a p row col.
              let a_missing : a < length missing = omega arith in
              let (shape', solved) = recovered n' p as_many some_used filled col run in
              cells a p a_missing col
              ∙ unfold product in
                ap (λ (n : ℕ). sum K n (λ j. mul (elem K n' a j) (column p j)))
                  (input_size ∙ sym filled)
                ∙ sym (columns K n' (length used) c.data_shards shape' (column p) a)
                ∙ sym (solved a (omega arith))
                ∙ ap (λ s. get_or s p o) (sym (get_or-map data_shard missing a [] a_missing))) in
        applied ∙ ap some same

    refilled : put_missing missing (map data_shard missing) rows ≡ whole data_shard 0 c.data_shards
    refilled = put_missing-whole data_shard rows rows_erased ∙ ap (whole data_shard 0) counted

    reconstruct_missing-whole :
        (n' : Matrix F)
        → length missing ≡ length used
        → 0 < length used
        → c.data_shards ≡ length available + length used
        → make_reconstruction_matrix K c.data_shards available missing used c.parity_matrix
          ≡ done n'
        → reconstruct_missing K schedule c n' missing input rows
          ≡ reconstructed (whole data_shard 0 c.data_shards)
    unfolding reconstruct_missing
    reconstruct_missing-whole n' as_many some_used filled run =
        rw (shards_recovered n' as_many some_used filled run, reconstruct_missing)
          (ap reconstructed refilled)

    -- On data shards of one length, some of them missing, and on some of the parity shards that the
    -- parity matrix gives for them, with a row of this matrix for each parity shard and a column for
    -- each data shard, and with one goroutine or more that run in any order,
    -- ReconstructData does not panic: it gives all of the data, or the error that too few shards
    -- are there, or the error of a singular matrix.
    pub reconstruct_data-whole :
        ((length input < c.data_shards)
          × (reconstruct_data K schedule c rows parity ≡ not_enough_parity_shards))
        ⊎ ((reconstruct_data K schedule c rows parity ≡ singular_matrix)
            ⊎ (reconstruct_data K schedule c rows parity
                ≡ reconstructed (whole data_shard 0 c.data_shards)))
    unfolding reconstruct_data
    reconstruct_data-whole =
        let made =
          make_reconstruction_matrix K c.data_shards available missing used c.parity_matrix in
        let parts : length available + length missing ≡ c.data_shards =
          length-rows data_shard 0 rows ∙ counted in
        let few : length used ≤ need = (length-used_parity_shards parity_shard need 0 parity).1 in
        elim (Bool-cases (length missing == 0)) [
          | inl complete ↦
              let none_missing : missing ≡ [] = no_rows missing (ground arith) in
              let nothing_put : put_missing [] (map data_shard []) rows ≡ rows =
                unfold put_missing in refl in
              let kept : rows ≡ whole data_shard 0 c.data_shards =
                sym nothing_put
                ∙ sym (ap (λ ns. put_missing ns (map data_shard ns) rows) none_missing)
                ∙ refilled in
              inr (inr (rw complete (ap reconstructed kept)))
          | inr some_missing ↦ elim (Bool-cases (ltb (length input) c.data_shards)) [
            | inl short ↦ inl (ground arith, rw (some_missing, short))
            | inr enough ↦
                let filled : c.data_shards ≡ length available + length used =
                  ground (arith, input_size, available_size) in
                let as_many : length missing ≡ length used = omega arith in
                let some_used : 0 < length used = ground arith in
                elim (Outcome-cases K made) [
                  | inl panics ↦ absurd (
                      make-no_panic K c.data_shards available missing used c.parity_matrix
                        (in_range as_many) some_used (omega arith) panics)
                  | inr (inl lost) ↦ inr (inl (rw (some_missing, enough, lost)))
                  | inr (inr (n', found)) ↦ inr (
                      inr (
                        rw (some_missing, enough, found)
                          (reconstruct_missing-whole n' as_many some_used filled found)))
                ]
          ]
        ]
