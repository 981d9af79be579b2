-- ===== src/Rsec16/Reconstruct/Enough.antt =====
-- When ReconstructData of rsec16/coder.go says that there are too few parity shards.
use gopar.Common.{
  ℕ, zero, suc, ◌+◌, ◌-◌, ◌<◌, ◌≤◌, ◌≡◌, ◌≢◌, ◌↔◌, ap, refl, ◌==◌, ltb, true, false, Option, none,
  some, List, [], ◌∷◌, ◌++◌, length, arith, Bool-cases, inl, inr, length-append, replicate,
}
use native.Mathlib.Decide.{dec_lt}
use gopar.Gf2p16.Algebra.{Field}
use gopar.Gf2p16.Matrix.{Matrix, Outcome, panic, singular, done}
use gopar.Rsec16.Coder.{Coder, apply_matrix, first_shard}
use gopar.Rsec16.Reconstruct.{
  available_rows, missing_rows, available_shards, used_parity_rows, used_parity_shards,
  make_reconstruction_matrix, panicked, not_enough_parity_shards, singular_matrix, reconstructed,
  reconstruct_missing, reconstruct_data,
}

module _ {S : Type 0} where
  pub length-missing_rows :
      (i : ℕ) (rows : List (Option S))
      → length (missing_rows i rows) + length (available_shards rows) ≡ length rows
  unfolding missing_rows available_shards
  length-missing_rows i [] = refl
  length-missing_rows i (none ∷ rows) = let ih = length-missing_rows (i + 1) rows in omega arith
  length-missing_rows i (some shard ∷ rows) =
      let ih = length-missing_rows (i + 1) rows in omega arith

  -- The parity shards that are used are as many as are needed, or all that are there.
  used_enough :
      (need : ℕ) (parity : List (Option S))
      → need ≤ length (available_shards parity)
      → length (used_parity_shards need parity) ≡ need
  unfolding available_shards used_parity_shards
  used_enough zero parity h = refl
  used_enough (suc need) [] h = absurd (omega arith)
  used_enough (suc need) (none ∷ parity) h = used_enough (suc need) parity h
  used_enough (suc need) (some shard ∷ parity) h = ap suc (used_enough need parity (omega arith))

  used_all :
      (need : ℕ) (parity : List (Option S))
      → length (available_shards parity) ≤ need
      → length (used_parity_shards need parity) ≡ length (available_shards parity)
  unfolding available_shards used_parity_shards
  used_all zero parity h = omega arith
  used_all (suc need) [] h = refl
  used_all (suc need) (none ∷ parity) h = used_all (suc need) parity h
  used_all (suc need) (some shard ∷ parity) h = ap suc (used_all need parity (omega arith))

module _ (K : Field) (schedule : ℕ → List ℕ) where
  open K use {F}

  reconstruct_missing-enough :
      (c : Coder F) (matrix : Matrix F) (missing : List ℕ) (input : List (List F))
      (rows : List (Option (List F)))
      → reconstruct_missing K schedule c matrix missing input rows ≢ not_enough_parity_shards
  unfolding reconstruct_missing
  reconstruct_missing-enough c matrix missing input rows =
      elim (apply_matrix K schedule c matrix input
        (replicate (length missing) (replicate (length (first_shard input)) (Field.zero K)))) [
          | none ↦ λ e. absurd (ground (arith, e))
          | some shards ↦ λ e. absurd (ground (arith, e))
        ]

  outcome-enough :
      (o : Outcome K) (c : Coder F) (missing : List ℕ) (input : List (List F))
      (rows : List (Option (List F)))
      → (elim o [
        | panic ↦ panicked
        | singular ↦ singular_matrix
        | done matrix ↦ reconstruct_missing K schedule c matrix missing input rows
      ])
        ≢ not_enough_parity_shards
  outcome-enough panic c missing input rows e = absurd (ground (arith, e))
  outcome-enough singular c missing input rows e = absurd (ground (arith, e))
  outcome-enough (done matrix) c missing input rows e =
      reconstruct_missing-enough c matrix missing input rows e

  -- The error of too few parity shards is returned exactly where fewer of them are there than data
  -- shards are missing.
  pub reconstruct_data-not_enough_parity_shards :
      (c : Coder F) (rows parity : List (Option (List F)))
      → length rows ≡ c.data_shards
      → (reconstruct_data K schedule c rows parity ≡ not_enough_parity_shards)
        ↔ (length (available_shards parity) < length (missing_rows 0 rows))
  unfolding reconstruct_data
  reconstruct_data-not_enough_parity_shards c rows parity size =
      let found = available_shards rows in
      let missing = missing_rows 0 rows in
      let need = c.data_shards - length found in
      let used = used_parity_shards need parity in
      let counts : length missing + length found ≡ length rows = length-missing_rows 0 rows in
      let both : length (found ++ used) ≡ length found + length used = length-append found used in
      elim (dec_lt (length (available_shards parity)) (length missing)) [
        | yes few ↦
            let all : length used ≡ length (available_shards parity) =
              used_all need parity (omega arith) in
            let some_missing : (length missing == 0) ≡ false = ground arith in
            let short : ltb (length (found ++ used)) c.data_shards ≡ true = ground arith in
            (λ e. few, λ h. rw (some_missing, short) refl)
        | no enough ↦
            let all : length used ≡ need = used_enough need parity (omega arith) in
            let long : ltb (length (found ++ used)) c.data_shards ≡ false = ground arith in
            (
              λ e. elim (Bool-cases (length missing == 0)) [
                | inl whole ↦
                    let done' : reconstruct_data K schedule c rows parity ≡ reconstructed rows =
                      rw whole refl in
                    absurd (ground (arith, done', e))
                | inr some_missing ↦ absurd (
                    outcome-enough
                      (make_reconstruction_matrix K c.data_shards (available_rows 0 rows) missing
                        (used_parity_rows need 0 parity) c.parity_matrix)
                      c missing (found ++ used) rows (rw (some_missing, long) at e))
              ],
              λ h. absurd (omega arith),
            )
      ]
