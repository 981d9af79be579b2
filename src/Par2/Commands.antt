-- ===== src/Par2/Commands.antt =====
-- par2/create.go, par2/verify.go and par2/repair.go: the options and the order of the calls. An int
-- that is not positive stands as 0; the working directory, the default number of goroutines and the
-- file system are arguments.
use gopar.Common.{
  ℕ, ◌==◌, not, if◌then◌else◌, Bool, true, false, Option, none, some, List, [], length, map,
}
use gopar.Common.Bytes.{Bytes, same_bytes, Result, ok, err, ◌>>=◌, ◌>>◌, guard}
use gopar.Gf2p16.T.{T, Tables}
use gopar.Gf2p16.Algebra.{Field}
use gopar.Par2.Error.{Error, wrong_extension, no_file_paths, not_enough_parity_shards}
use gopar.Par2.FileIo.{FileIo}
use gopar.Par2.Paths.{path_ext, path_dir, abs_path}
use gopar.Par2.Encoder
use gopar.Par2.Encoder.{Encoder, new_encoder, compute_parity_data, write, par2_extension}
use gopar.Par2.Decoder.{Decoder, new_decoder, ShardCounts, shard_counts}
use gopar.Par2.Decoder.Load.{load_file_data}
use gopar.Par2.Decoder.Parity.{load_parity_data}
use gopar.Par2.Decoder.Repair.{Repaired, repair}

unfoldable pub check_extension : Bytes → Result Error (Unit {0})
check_extension par_path = guard (same_bytes (path_ext par_path) par2_extension) wrong_extension

-- A count that is not given has its default.
unfoldable pub or_default : ℕ → ℕ → ℕ
or_default given default = if given == 0 then default else given

abbrev pub slice_byte_count_default : ℕ
slice_byte_count_default = 2000

abbrev pub num_parity_shards_default : ℕ
num_parity_shards_default = 3

pub record CreateOptions : Type 0 where
  pub slice_byte_count : ℕ
  pub num_parity_shards : ℕ
  pub num_goroutines : ℕ

module _ (md5 : Bytes → Bytes) (K : Field) (element : T → Field.F K) (value : Field.F K → T)
    (schedule : ℕ → List ℕ) (t : Tables) (io : FileIo) (num_goroutines_default : ℕ) where
  -- The encoder with its parity shards.
  unfoldable pub computed_encoder :
      Bytes → Bytes → List Bytes → CreateOptions → io.Disk → Result Error Encoder
  computed_encoder working_dir par_path file_paths options disk = do
    check_extension par_path
    guard (not (length file_paths == 0)) no_file_paths
    encoder ←
        new_encoder (path_dir (abs_path working_dir par_path))
          (map (abs_path working_dir) file_paths)
          (or_default options.slice_byte_count slice_byte_count_default)
          (or_default options.num_parity_shards num_parity_shards_default)
          (or_default options.num_goroutines num_goroutines_default)
    loaded ← Encoder.load_file_data md5 io disk encoder
    compute_parity_data K element value schedule t loaded

  unfoldable pub create :
      Bytes → Bytes → List Bytes → CreateOptions → io.Disk → Option Error × io.Disk
  create working_dir par_path file_paths options disk =
      elim (computed_encoder working_dir par_path file_paths options disk) [
        | err e ↦ (some e, disk)
        | ok encoder ↦ write md5 io encoder par_path disk
      ]

  -- The decoder with its data files and its parity files loaded.
  unfoldable pub load_decoder : Bytes → ℕ → io.Disk → Result Error Decoder
  load_decoder par_path num_goroutines disk = do
    check_extension par_path
    decoder ← new_decoder md5 io disk par_path (or_default num_goroutines num_goroutines_default)
    loaded ← load_file_data md5 io disk decoder
    load_parity_data md5 io disk loaded

  unfoldable pub verify : Bytes → ℕ → io.Disk → Result Error ShardCounts
  verify par_path num_goroutines disk = do
    decoder ← load_decoder par_path num_goroutines disk
    ok (shard_counts decoder)

  unfoldable pub repair_files : Bytes → Bool → ℕ → io.Disk → Repaired io.Disk
  repair_files par_path double_check num_goroutines disk =
      elim (load_decoder par_path num_goroutines disk) [
        | err e ↦ record { repaired_paths = []; error = some e; disk = disk }
        | ok decoder ↦ repair md5 K element value schedule t io decoder double_check disk
      ]

unfoldable pub repair_error_means_repair_necessary_but_not_possible : Option Error → Bool
repair_error_means_repair_necessary_but_not_possible none = false
repair_error_means_repair_necessary_but_not_possible (some not_enough_parity_shards) = true
repair_error_means_repair_necessary_but_not_possible (some e) = false

abbrev pub exit_success : ℕ
exit_success = 0

abbrev pub exit_file_io_error : ℕ
exit_file_io_error = 6

unfoldable pub exit_code_for_create_error : Option Error → ℕ
exit_code_for_create_error none = exit_success
exit_code_for_create_error (some e) = exit_file_io_error
