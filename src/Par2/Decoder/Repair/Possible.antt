-- ===== src/Par2/Decoder/Repair/Possible.antt =====
-- Repair has too few parity shards exactly where the counts of shards say that it is needed and not
-- possible.
use gopar.Common.{
  ℕ, suc, ◌+◌, ◌-◌, ◌^◌, ◌<◌, ◌≡◌, ◌≢◌, ◌↔◌, ◌∙◌, sym, ap, refl, ltb, ◌==◌, not, if◌then◌else◌,
  Bool, true, false, Option, none, some, List, [], ◌∷◌, length, map, arith, Bool-cases,
  Option-cases, inl, inr,
}
use mathlib.Core.Option
use gopar.Common.Bytes.{Bytes, ok, err, ◌>>=◌, guard, guard-then, bind-ok, ok-injective}
use gopar.Gf2p16.T.{T, Tables}
use gopar.Gf2p16.Algebra.{Field}
use gopar.Rsec16.Coder.{Coder, generate_parity}
use gopar.Rsec16.ParityMatrix.{
  finish_coder, generators, new_vandermonde_matrix, new_coder_par2_vandermonde,
}
use gopar.Rsec16.Reconstruct
use gopar.Rsec16.Reconstruct.{
  Reconstruction, reconstructed, available_shards, missing_rows, reconstruct_data,
}
use gopar.Rsec16.Reconstruct.Enough.{length-missing_rows, reconstruct_data-not_enough_parity_shards}
use gopar.Par2.Error.{
  no_file_integrity_info, no_parity_shards, not_enough_parity_shards, repair_failed,
}
use gopar.Par2.Decoder.{
  Decoder, all_shards, count_shards, shard_counts, repair_needed, repair_possible,
}
use gopar.Par2.Decoder.Repair.{
  coder_result, to_elements, to_bytes, elements_of, reconstruction_result, new_coder_and_shards,
  same_parity, check_parity_shards, reconstructed_shards,
}

count_shards_lem :
    (shards : List (Option Bytes)) (usable unusable : ℕ)
    → let (usable', unusable') = count_shards shards (usable, unusable) in
      (usable' ≡ usable + length (available_shards shards))
      × (unusable' + length (available_shards shards) ≡ unusable + length shards)
unfolding count_shards available_shards
count_shards_lem [] usable unusable = (omega arith, omega arith)
count_shards_lem (none ∷ shards) usable unusable =
    let (e, e') = count_shards_lem shards usable (unusable + 1) in (e, omega arith)
count_shards_lem (some shard ∷ shards) usable unusable =
    let (e, e') = count_shards_lem shards (usable + 1) unusable in (omega arith, omega arith)

-- Repair is needed and not possible where fewer parity shards are there than data shards miss.
impossible_lem :
    (d : Decoder)
    → ((repair_needed (shard_counts d) ≡ true) × (repair_possible (shard_counts d) ≡ false)) ↔ (
        length (available_shards d.parity_shards)
        < length (missing_rows 0 (all_shards d.file_integrity_infos)))
unfolding shard_counts repair_needed repair_possible
impossible_lem d =
    let shards = all_shards d.file_integrity_infos in
    let (e1, e2) = count_shards_lem shards 0 0 in
    let (e3, e4) = count_shards_lem d.parity_shards 0 0 in
    let e5 = length-missing_rows 0 shards in (λ h. ground arith, λ h. (ground arith, ground arith))

length-elements :
    {A B : Type 0} (f : A → B) (shards : List (Option A))
    → (length (available_shards (map (Option.map f) shards)) ≡ length (available_shards shards))
      × (length (map (Option.map f) shards) ≡ length shards)
unfolding available_shards
length-elements f [] = (refl, refl)
length-elements f (none ∷ shards) = let (e, e') = length-elements f shards in (e, ap suc e')
length-elements f (some shard ∷ shards) =
    let (e, e') = length-elements f shards in (ap suc e, ap suc e')

finish_coder-data_shards :
    {F : Type 0} (d p g : ℕ) (m : Option _) (c : Coder F)
    → coder_result (finish_coder d p g m) ≡ ok c
    → c.data_shards ≡ d
unfolding finish_coder
finish_coder-data_shards d p g none c h = absurd (ground (arith, h))
finish_coder-data_shards d p g (some m) c h =
    sym (ap (λ (c : Coder _). c.data_shards) (ok-injective _ c h))

module _ {F : Type 0} (t : Tables) (element : T → F) where
  new_coder-data_shards :
      (d p g : ℕ) (c : Coder F)
      → coder_result (new_coder_par2_vandermonde t element d p g) ≡ ok c
      → c.data_shards ≡ d
  unfolding new_coder_par2_vandermonde
  new_coder-data_shards d p g c h = elim (Bool-cases (d == 0)) [
    | inl e ↦ absurd (ground (arith, rw e at h))
    | inr d_some ↦ elim (Bool-cases (p == 0)) [
      | inl e ↦ absurd (ground (arith, rw (d_some, e) at h))
      | inr p_some ↦ elim (Bool-cases (g == 0)) [
        | inl e ↦ absurd (ground (arith, rw (d_some, p_some, e) at h))
        | inr g_some ↦ elim (Bool-cases (ltb (length (generators t)) d)) [
          | inl e ↦ absurd (ground (arith, rw (d_some, p_some, g_some, e) at h))
          | inr few ↦ elim (Bool-cases (ltb (2 ^ 16 - 1) p)) [
            | inl e ↦ absurd (ground (arith, rw (d_some, p_some, g_some, few, e) at h))
            | inr small ↦
                finish_coder-data_shards d p g (new_vandermonde_matrix t element p d) c
                  (rw (d_some, p_some, g_some, few, small) at h)
          ]
        ]
      ]
    ]
  ]

guard-not_enough :
    {A : Type 0} (b : Bool) (s : A)
    → (guard b repair_failed >>= (λ _. ok s)) ≢ err not_enough_parity_shards
guard-not_enough true s e = absurd (ground (arith, e))
guard-not_enough false s e = absurd (ground (arith, e))

module _ (K : Field) (element : T → Field.F K) (value : Field.F K → T) (schedule : ℕ → List ℕ)
    (t : Tables) (d : Decoder) (check_parity : Bool) (coder : Coder (Field.F K)) where
  check_parity_shards-not_enough :
      (shards : List Bytes)
      → (check_parity_shards K element value schedule coder shards d.parity_shards
          >>= (λ _. ok shards))
        ≢ err not_enough_parity_shards
  unfolding check_parity_shards
  check_parity_shards-not_enough shards e =
      elim (Option-cases
        (generate_parity K schedule coder (map (to_elements K element value) shards))) [
          | inl failed ↦ absurd (ground (arith, rw (failed, check_parity_shards) at e))
          | inr (computed, found) ↦
              guard-not_enough
                (same_parity d.parity_shards (map (to_bytes K element value) computed)) shards
                (rw (found, check_parity_shards) at e)
        ]

  checked-not_enough :
      (check : Bool) (shards : List Bytes)
      → ((if check
            then check_parity_shards K element value schedule coder shards d.parity_shards
            else ok tt)
          >>= (λ _. ok shards))
        ≢ err not_enough_parity_shards
  checked-not_enough true shards e = check_parity_shards-not_enough shards e
  checked-not_enough false shards e = absurd (ground (arith, e))

  reconstruction-not_enough :
      (r : Reconstruction K)
      → ((reconstruction_result K element value r >>= (λ shards.
            (if check_parity
              then check_parity_shards K element value schedule coder shards d.parity_shards
              else ok tt)
            >>= (λ _. ok shards)))
          ≡ err not_enough_parity_shards)
        ↔ (r ≡ Reconstruct.not_enough_parity_shards)
  reconstruction-not_enough Reconstruct.panicked =
      (λ e. absurd (ground (arith, e)), λ e. absurd (ground (arith, e)))
  reconstruction-not_enough Reconstruct.not_enough_parity_shards = (λ e. refl, λ e. refl)
  reconstruction-not_enough Reconstruct.singular_matrix =
      (λ e. absurd (ground (arith, e)), λ e. absurd (ground (arith, e)))
  reconstruction-not_enough (reconstructed rows) =
      (λ e. absurd (checked-not_enough check_parity _ e), λ e. absurd (ground (arith, e)))

  coder_and_shards_lem :
      (shards : List (Option Bytes))
      → new_coder_and_shards K element value t d ≡ ok (coder, shards)
      → (shards ≡ all_shards d.file_integrity_infos)
        × (coder.data_shards ≡ length (all_shards d.file_integrity_infos))
  unfolding new_coder_and_shards
  coder_and_shards_lem shards made' =
      let data_shards = all_shards d.file_integrity_infos in
      let (g1, e1) =
        guard-then (not (length d.file_integrity_infos == 0)) no_file_integrity_info _ _ made' in
      let (g2, e2) = guard-then (not (length d.parity_shards == 0)) no_parity_shards _ _ e1 in
      let (c, (found, same)) =
        bind-ok
          (coder_result (
            new_coder_par2_vandermonde t element (length data_shards) (length d.parity_shards)
              d.num_goroutines))
          (λ c. ok (c, data_shards)) (coder, shards) e2 in
      let pair : (c, data_shards) ≡ (coder, shards) = ok-injective _ _ same in
      (
        sym (ap (λ (x : Coder (Field.F K) × List (Option Bytes)). x.1) pair),
        sym (ap (λ (x : Coder (Field.F K) × List (Option Bytes)). x.0.data_shards) pair)
            ∙ new_coder-data_shards t element (length data_shards) (length d.parity_shards)
                d.num_goroutines c found,
      )

  -- Once there are shards and a coder for them, the reconstruction of Repair fails for too few
  -- parity shards exactly where the counts of shards, which Verify returns, say that a repair is
  -- needed and that it is not possible.
  pub reconstructed_shards-not_enough :
      (shards : List (Option Bytes))
      → new_coder_and_shards K element value t d ≡ ok (coder, shards)
      → (reconstructed_shards K element value schedule t d check_parity
          ≡ err not_enough_parity_shards)
        ↔ ((repair_needed (shard_counts d) ≡ true) × (repair_possible (shard_counts d) ≡ false))
  unfolding reconstructed_shards
  reconstructed_shards-not_enough shards made' =
      let (same, size) = coder_and_shards_lem shards made' in
      let rows = elements_of K element value shards in
      let parity = elements_of K element value d.parity_shards in
      let (rows_there, rows_size) = length-elements (to_elements K element value) shards in
      let (parity_there, parity_size) =
        length-elements (to_elements K element value) d.parity_shards in
      let (to, from) = impossible_lem d in
      let (to', from') =
        reconstruct_data-not_enough_parity_shards K schedule coder rows parity
          (rows_size ∙ ap length same ∙ sym size) in
      let (to'', from'') =
        reconstruction-not_enough (reconstruct_data K schedule coder rows parity) in
      let missing_same : length (missing_rows 0 rows)
          ≡ length (missing_rows 0 (all_shards d.file_integrity_infos)) =
        omega (
          arith,
          length-missing_rows 0 rows,
          length-missing_rows 0 (all_shards d.file_integrity_infos),
          ap (λ s. length (available_shards s)) same,
          ap length same,
        ) in
      (
        λ e. from (omega (arith, to' (to'' (rw made' at e)))),
        λ h. rw made' (from'' (from' (omega (arith, to h)))),
      )
