-- ===== src/CommandLine/ExitCodes.antt =====
-- How the exit code of verify foretells that of repair.
use gopar.Common.{ℕ, ◌≡◌, ◌∙◌, sym, ap, refl, Bool, true, false, Option, some, List, [], arith}
use gopar.Common.Bytes.{Bytes, ok, err}
use gopar.Gf2p16.T.{T, Tables}
use gopar.Gf2p16.Algebra.{Field}
use gopar.Rsec16.Coder.{Coder}
use gopar.Par2.Error.{Error, not_enough_parity_shards}
use gopar.Par2.FileIo.{FileIo}
use gopar.Par2.Decoder.{Decoder, shard_counts, repair_needed, repair_possible}
use gopar.Par2.Decoder.Repair.{Repaired, new_coder_and_shards, reconstructed_shards, repair}
use gopar.Par2.Decoder.Repair.Possible.{reconstructed_shards-not_enough}
use gopar.Par2.Commands.{
  load_decoder, verify, repair_files, repair_error_means_repair_necessary_but_not_possible,
}
use gopar.CommandLine.{
  exit_repair_not_possible, RepairChecker, process_repair_checker, process_repair_result_and_exit,
  unless_panic, verify_exit_code, repair_exit_code,
}

-- The exit code of verify by the two tests.
checker-not_possible :
    (checker : RepairChecker)
    → process_repair_checker checker ≡ exit_repair_not_possible
    → (checker.repair_needed ≡ true) × (checker.repair_possible ≡ false)
unfolding process_repair_checker
checker-not_possible checker h = (ground arith, ground arith)

module _ (md5 : Bytes → Bytes) (K : Field) (element : T → Field.F K) (value : Field.F K → T)
    (schedule : ℕ → List ℕ) (t : Tables) (io : FileIo) (num_goroutines_default : ℕ)
    (par_file : Bytes) (double_check : Bool) (num_goroutines : ℕ) (disk : io.Disk)
    (d : Decoder) where
  abbrev IsLoaded : Type 0
  IsLoaded =
      load_decoder md5 K element value schedule t io num_goroutines_default par_file num_goroutines
        disk
      ≡ ok d

  verify_lem :
      IsLoaded
      → verify_exit_code md5 K element value schedule t io num_goroutines_default par_file
          num_goroutines disk
        ≡ process_repair_checker (record {
          repair_needed = repair_needed (shard_counts d);
          repair_possible = repair_possible (shard_counts d);
        })
  unfolding verify_exit_code verify
  verify_lem h = rw (h, verify, verify_exit_code) refl

  repair_failed_lem :
      (e : Error)
      → IsLoaded
      → reconstructed_shards K element value schedule t d double_check ≡ err e
      → repair_files md5 K element value schedule t io num_goroutines_default par_file double_check
          num_goroutines disk
        ≡ record { repaired_paths = []; error = some e; disk = disk }
  unfolding repair_files repair
  repair_failed_lem e h failed = rw (h, repair_files, failed, repair) refl

  -- Where the decoder and its coder can be made and verify exits with the code of a repair that is
  -- not possible, repair exits with the same code and leaves the disk as it was: it returns the error
  -- of too few parity shards and no paths.
  pub verify-repair_not_possible :
      (coder : Coder (Field.F K)) (shards : List (Option Bytes))
      → load_decoder md5 K element value schedule t io num_goroutines_default par_file
          num_goroutines disk
        ≡ ok d
      → new_coder_and_shards K element value t d ≡ ok (coder, shards)
      → verify_exit_code md5 K element value schedule t io num_goroutines_default par_file
          num_goroutines disk
        ≡ exit_repair_not_possible
      → (repair_exit_code md5 K element value schedule t io num_goroutines_default par_file
            double_check num_goroutines disk
          ≡ exit_repair_not_possible)
        × (repair_files md5 K element value schedule t io num_goroutines_default par_file
              double_check num_goroutines disk
            ≡ record { repaired_paths = []; error = some not_enough_parity_shards; disk = disk })
  unfolding repair_exit_code process_repair_result_and_exit
      repair_error_means_repair_necessary_but_not_possible
  verify-repair_not_possible coder shards h made code =
      let (needed, impossible) = checker-not_possible _ (sym (verify_lem h) ∙ code) in
      let (to, from) =
        reconstructed_shards-not_enough K element value schedule t d double_check coder shards
          made in
      let all = repair_failed_lem not_enough_parity_shards h (from (needed, impossible)) in
      (
        ap
            (λ (r : Repaired io.Disk). unless_panic r.error (
              process_repair_result_and_exit repair_error_means_repair_necessary_but_not_possible
                r.error))
            all,
        all,
      )
