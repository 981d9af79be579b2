-- ===== src/CommandLine.antt =====
-- cmd/par/main.go and par2cmdline/exit_codes.go: the commands, and the exit codes for PAR2 files. The
-- parsing of flags is that of Go's standard library; what is printed is left out.
pub mod ExitCodes
pub mod Tests
use gopar.Common.{
  ℕ, ◌==◌, leb, ltb, ◌-◌, ◌+◌, ◌&&◌, ◌||◌, if◌then◌else◌, Bool, true, false, Option, none, some,
  List, [], ◌∷◌, length, map,
}
use gopar.Common.Bytes.{Bytes, same_bytes, Result, ok, err}
use gopar.Gf2p16.T.{T, Tables}
use gopar.Gf2p16.Algebra.{Field}
use gopar.Par2.Error.{Error, panic}
use gopar.Par2.FileIo.{FileIo}
use gopar.Par2.Decoder.{ShardCounts}
use gopar.Par2.Decoder
use gopar.Par2.Commands.{
  CreateOptions, create, verify, repair_files, repair_error_means_repair_necessary_but_not_possible,
  exit_success, exit_code_for_create_error,
}

abbrev pub exit_repair_possible : ℕ
exit_repair_possible = 1

abbrev pub exit_repair_not_possible : ℕ
exit_repair_not_possible = 2

abbrev pub exit_invalid_command_line_arguments : ℕ
exit_invalid_command_line_arguments = 3

abbrev pub exit_logic_error : ℕ
exit_logic_error = 7

-- The status with which Go ends a process that panics.
abbrev pub exit_panic : ℕ
exit_panic = 2

-- An argument that names a command.
pub data Command : Type 0 where
  create_command verify_command repair_command unknown_command : Command

-- strings.ToLower, over ASCII.
unfoldable pub to_lower : Bytes → Bytes
to_lower = map (λ b. if leb b'A' b && leb b b'Z' then b + 32 else b)

unfoldable pub command_of : Bytes → Command
command_of cmd =
    let name = to_lower cmd in
    if same_bytes name (b'c' ∷ []) || same_bytes name (b'c' ∷ b'r' ∷ b'e' ∷ b'a' ∷ b't' ∷ b'e' ∷ [])
    then create_command
    else if same_bytes name (b'v' ∷ [])
        || same_bytes name (b'v' ∷ b'e' ∷ b'r' ∷ b'i' ∷ b'f' ∷ b'y' ∷ [])
    then verify_command
    else if same_bytes name (b'r' ∷ [])
        || same_bytes name (b'r' ∷ b'e' ∷ b'p' ∷ b'a' ∷ b'i' ∷ b'r' ∷ [])
    then repair_command
    else unknown_command

-- The interface repairChecker.
pub record RepairChecker : Type 0 where
  pub repair_needed : Bool
  pub repair_possible : Bool

abbrev pub shard_checker : ShardCounts → RepairChecker
shard_checker fc = record {
  repair_needed = Decoder.repair_needed fc;
  repair_possible = Decoder.repair_possible fc;
}

unfoldable pub process_repair_checker : RepairChecker → ℕ
process_repair_checker checker =
    if checker.repair_needed
    then if checker.repair_possible then exit_repair_possible else exit_repair_not_possible
    else exit_success

unfoldable pub process_repair_result_and_exit : (Option Error → Bool) → Option Error → ℕ
process_repair_result_and_exit means_not_possible error =
    if means_not_possible error
    then exit_repair_not_possible
    else elim error [ none ↦ exit_success | some e ↦ exit_logic_error ]

-- A panic ends the process before the code that is chosen for the other errors.
abbrev pub unless_panic : Option Error → ℕ → ℕ
unless_panic none exit_code = exit_code
unless_panic (some panic) exit_code = exit_panic
unless_panic (some e) exit_code = exit_code

module _ (md5 : Bytes → Bytes) (K : Field) (element : T → Field.F K) (value : Field.F K → T)
    (schedule : ℕ → List ℕ) (t : Tables) (io : FileIo) (num_goroutines_default : ℕ) where
  -- The exit codes of the three commands for a PAR2 file.
  unfoldable pub create_exit_code : Bytes → Bytes → List Bytes → CreateOptions → io.Disk → ℕ
  create_exit_code working_dir par_file file_paths options disk =
      let (error, disk') =
        create md5 K element value schedule t io num_goroutines_default working_dir par_file
          file_paths options disk in
      unless_panic error (exit_code_for_create_error error)

  unfoldable pub verify_exit_code : Bytes → ℕ → io.Disk → ℕ
  verify_exit_code par_file num_goroutines disk =
      elim (verify md5 K element value schedule t io num_goroutines_default par_file num_goroutines
        disk) [
          | ok counts ↦ process_repair_checker (shard_checker counts)
          | err e ↦ unless_panic (some e) exit_logic_error
        ]

  unfoldable pub repair_exit_code : Bytes → Bool → ℕ → io.Disk → ℕ
  repair_exit_code par_file double_check num_goroutines disk =
      let error =
        (repair_files md5 K element value schedule t io num_goroutines_default par_file double_check
          num_goroutines disk).error in
      unless_panic error
        (process_repair_result_and_exit repair_error_means_repair_necessary_but_not_possible error)
