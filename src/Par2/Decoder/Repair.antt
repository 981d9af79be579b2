-- ===== src/Par2/Decoder/Repair.antt =====
-- Repair of par2/decoder.go: the shards are reconstructed, and the files that were not whole are
-- written. The coder works on elements of GF(2^16), which `element` and `value` turn into the
-- uint16s of the shards and back.
pub mod Restored
pub mod Possible
pub mod Whole
use gopar.Common.{
  ℕ, zero, suc, ◌+◌, ◌*◌, leb, ◌==◌, ◌&&◌, ◌||◌, not, if◌then◌else◌, Bool, true, false, Option,
  none, some, List, [], ◌∷◌, ◌++◌, length, take, drop, map,
}
use mathlib.Core.Option
use gopar.Common.Bytes.{Bytes, same_bytes, put_le, join, Result, ok, err, ◌>>=◌, ◌>>◌, guard}
use gopar.Gf2p16.T.{T, Tables}
use gopar.Gf2p16.Algebra.{Field}
use gopar.Gf2p16.Slice.{words}
use gopar.Rsec16.Coder.{Coder, generate_parity}
use gopar.Rsec16.ParityMatrix
use gopar.Rsec16.ParityMatrix.{Construction, made, new_coder_par2_vandermonde}
use gopar.Rsec16.Reconstruct
use gopar.Rsec16.Reconstruct.{Reconstruction, reconstructed, reconstruct_data}
use gopar.Par2.Error.{
  Error, panic, no_file_integrity_info, no_parity_shards, too_many_data_shards,
  too_many_parity_shards, not_enough_parity_shards, singular_matrix, repair_failed,
  sixteen_k_hash_mismatch, data_hash_mismatch,
}
use gopar.Par2.FileIo.{FileIo}
use gopar.Par2.Crc32.{checksum_ieee}
use gopar.Par2.DataFile.{sixteen_k_hash}
use gopar.Par2.Decoder.{
  InputFileInfo, ShardIntegrityInfo, FileIntegrityInfo, LocationMap, Decoder, file_ok, all_shards,
  is_empty, get_file_path,
}
use gopar.Par2.Decoder.Locations.{get}

-- What a constructor of the coder returns, as a result of the decoder.
abbrev pub coder_result : {F : Type 0} → Construction F → Result Error (Coder F)
coder_result (made c) = ok c
coder_result ParityMatrix.panicked = err panic
coder_result ParityMatrix.too_many_shards = err too_many_data_shards
coder_result ParityMatrix.too_many_data_shards = err too_many_data_shards
coder_result ParityMatrix.too_many_parity_shards = err too_many_parity_shards

abbrev pub or_nil : Option Bytes → Bytes
or_nil none = []
or_nil (some shard) = shard

module _ (K : Field) (element : T → Field.F K) (value : Field.F K → T) where
  open K use {F}

  -- The elements of a shard, and the bytes of the elements.
  unfoldable pub to_elements : Bytes → List F
  to_elements bs = map element (words bs)

  unfoldable pub to_bytes : List F → Bytes
  to_bytes [] = []
  to_bytes (x ∷ xs) = put_le 2 (value x) ++ to_bytes xs

  abbrev pub elements_of : List (Option Bytes) → List (Option (List F))
  elements_of = map (Option.map to_elements)

  abbrev pub bytes_of : List (Option (List F)) → List Bytes
  bytes_of = map (λ shard. or_nil (Option.map to_bytes shard))

  abbrev pub reconstruction_result : Reconstruction K → Result Error (List Bytes)
  reconstruction_result (reconstructed rows) = ok (bytes_of rows)
  reconstruction_result Reconstruct.panicked = err panic
  reconstruction_result Reconstruct.not_enough_parity_shards = err not_enough_parity_shards
  reconstruction_result Reconstruct.singular_matrix = err singular_matrix

  module _ (t : Tables) where
    unfoldable pub new_coder_and_shards : Decoder → Result Error (Coder F × List (Option Bytes))
    new_coder_and_shards d = do
      guard (not (length d.file_integrity_infos == 0)) no_file_integrity_info
      guard (not (length d.parity_shards == 0)) no_parity_shards
      let data_shards = all_shards d.file_integrity_infos
      coder ← coder_result (
          new_coder_par2_vandermonde t element (length data_shards) (length d.parity_shards)
            d.num_goroutines)
      ok (coder, data_shards)

-- The loop over the parity shards that compares those that are there.
unfoldable pub same_parity : List (Option Bytes) → List Bytes → Bool
same_parity [] computed = true
same_parity (shard ∷ shards) [] = false
same_parity (shard ∷ shards) (c ∷ computed) =
    (is_empty shard || same_bytes c (or_nil shard)) && same_parity shards computed

module _ (K : Field) (element : T → Field.F K) (value : Field.F K → T) (schedule : ℕ → List ℕ) where
  open K use {F}

  -- The reconstructed shards computed back into parity shards; no shards panic.
  unfoldable pub check_parity_shards :
      Coder F → List Bytes → List (Option Bytes) → Result Error (Unit {0})
  check_parity_shards coder data_shards parity_shards =
      elim (generate_parity K schedule coder (map (to_elements K element value) data_shards)) [
        | none ↦ err panic
        | some computed ↦
            guard (same_parity parity_shards (map (to_bytes K element value) computed))
              repair_failed
      ]

  unfoldable pub reconstructed_shards : Tables → Decoder → Bool → Result Error (List Bytes)
  reconstructed_shards t d check_parity = do
    (coder, data_shards) ← new_coder_and_shards K element value t d
    shards ← reconstruction_result K element value (
        reconstruct_data K schedule coder (elements_of K element value data_shards)
          (elements_of K element value d.parity_shards))
    if check_parity then check_parity_shards coder shards d.parity_shards else ok tt
    ok shards

module _ (md5 : Bytes → Bytes) (m : LocationMap) where
  unfoldable pub new_shard_infos : List Bytes → List ShardIntegrityInfo
  new_shard_infos [] = []
  new_shard_infos (shard ∷ shards) =
      record { shard_data = some shard; locations = get md5 m (checksum_ieee shard) shard }
      ∷ new_shard_infos shards

  -- The loop that gives each file its shards; whether the file was whole before stands beside it.
  unfoldable pub fill_reconstructed :
      ℕ → List FileIntegrityInfo → List Bytes → List (Bool × FileIntegrityInfo)
  fill_reconstructed slice_byte_count [] shards = []
  fill_reconstructed slice_byte_count (info ∷ infos) shards =
      let shard_count = length info.shard_infos in
      (
        file_ok slice_byte_count info,
        record info { shard_infos = new_shard_infos (take shard_count shards) },
      )
      ∷ fill_reconstructed slice_byte_count infos (drop shard_count shards)

abbrev pub joined_data : List ShardIntegrityInfo → Bytes
joined_data [] = []
joined_data (info ∷ infos) = or_nil info.shard_data ++ joined_data infos

-- What Repair returns, with what it leaves on the disk.
pub record Repaired (Disk : Type 0) : Type 0 where
  pub repaired_paths : List Bytes
  pub error : Option Error
  pub disk : Disk

module _ (md5 : Bytes → Bytes) (io : FileIo) (d : Decoder) where
  open io use {Disk}

  -- The data of a file whose shards are put together, where its length and its hashes are right.
  unfoldable pub repaired_data : InputFileInfo → FileIntegrityInfo → Result Error Bytes
  repaired_data info integrity = do
    let buf = joined_data integrity.shard_infos
    guard (leb info.byte_count (length buf)) panic
    let data_bytes = take info.byte_count buf
    guard (same_bytes (sixteen_k_hash md5 data_bytes) info.sixteen_k_hash) sixteen_k_hash_mismatch
    guard (same_bytes (md5 data_bytes) info.hash) data_hash_mismatch
    ok data_bytes

  unfoldable pub write_repaired : InputFileInfo → FileIntegrityInfo → Disk → Option Error × Disk
  write_repaired info integrity disk = elim (repaired_data info integrity) [
    | err e ↦ (some e, disk)
    | ok data_bytes ↦ io.write_file disk (get_file_path d info) data_bytes
  ]

  unfoldable pub write_all :
      List InputFileInfo → List (Bool × FileIntegrityInfo) → Disk → Repaired Disk
  write_all [] files disk = record { repaired_paths = []; error = none; disk = disk }
  write_all (info ∷ infos) [] disk = record { repaired_paths = []; error = some panic; disk = disk }
  write_all (info ∷ infos) ((true, integrity) ∷ files) disk = write_all infos files disk
  write_all (info ∷ infos) ((false, integrity) ∷ files) disk =
      let (error, disk') = write_repaired info integrity disk in
      let rest = write_all infos files disk' in
      elim error [
        | some e ↦ record { repaired_paths = []; error = some e; disk = disk' }
        | none ↦ record rest { repaired_paths = get_file_path d info ∷ rest.repaired_paths }
      ]

module _ (md5 : Bytes → Bytes) (K : Field) (element : T → Field.F K) (value : Field.F K → T)
    (schedule : ℕ → List ℕ) (t : Tables) (io : FileIo) where
  unfoldable pub repair : Decoder → Bool → io.Disk → Repaired io.Disk
  repair d check_parity disk =
      elim (reconstructed_shards K element value schedule t d check_parity) [
        | err e ↦ record { repaired_paths = []; error = some e; disk = disk }
        | ok shards ↦
            write_all md5 io d d.recovery_set
              (fill_reconstructed md5 d.checksum_to_location d.slice_byte_count
                d.file_integrity_infos shards)
              disk
      ]
