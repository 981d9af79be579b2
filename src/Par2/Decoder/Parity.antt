-- ===== src/Par2/Decoder/Parity.antt =====
-- LoadParityData of par2/decoder.go.
use gopar.Common.{
  ℕ, ◌+◌, ◌-◌, ◌%◌, ◌^◌, ltb, ◌==◌, ◌&&◌, if◌then◌else◌, Bool, true, false, Option, none, some,
  List, [], ◌∷◌, ◌++◌, length, set, replicate,
}
use gopar.Common.Bytes.{Bytes, same_bytes, Result, ok, err, ◌>>=◌, ◌>>◌, guard}
use gopar.Par2.Error.{
  Error, no_packets_found, panic, slice_byte_count_mismatch, recovery_set_mismatch,
  non_recovery_set_mismatch,
}
use gopar.Par2.FileIo.{FileIo}
use gopar.Par2.File.{File, read_file}
use gopar.Par2.File.Write.{find}
use gopar.Par2.Filename.{dot}
use gopar.Par2.Paths.{path_ext, path_base}
use gopar.Par2.Decoder.{Decoder, finished, input_file_info_ids}

-- reflect.DeepEqual of lists of file IDs.
unfoldable pub same_ids : List Bytes → List Bytes → Bool
same_ids [] [] = true
same_ids [] (y ∷ ys) = false
same_ids (x ∷ xs) [] = false
same_ids (x ∷ xs) (y ∷ ys) = same_bytes x y && same_ids xs ys

-- A parity file is checked against the index file. Reading the slice byte count of a file that has
-- no main packet panics.
unfoldable pub check_parity_file : Decoder → File → Result Error File
check_parity_file d parity_file = do
  main_packet ← find parity_file.main_packet panic
  guard (d.slice_byte_count == main_packet.slice_byte_count) slice_byte_count_mismatch
  guard (same_ids (input_file_info_ids d.recovery_set) main_packet.recovery_set)
      recovery_set_mismatch
  guard (same_ids (input_file_info_ids d.non_recovery_set) main_packet.non_recovery_set)
      non_recovery_set_mismatch
  ok parity_file

-- A file of no packets of the set is passed over.
unfoldable pub take_parity_file : Decoder → Result Error (Bytes × File) → Result Error (Option File)
take_parity_file d (err no_packets_found) = ok none
take_parity_file d (err e) = err e
take_parity_file d (ok (set_id, parity_file)) = do
  checked ← check_parity_file d parity_file
  ok (some checked)

abbrev pub cons_found : {A : Type 0} → Option A → List A → List A
cons_found none xs = xs
cons_found (some x) xs = x ∷ xs

module _ (md5 : Bytes → Bytes) (io : FileIo) (disk : io.Disk) (d : Decoder) where
  unfoldable pub load_parity_file : Bytes → Result Error (Option File)
  load_parity_file match = do
    volume_bytes ← io.read_file disk match
    take_parity_file d (finished (read_file md5 (some d.set_id) volume_bytes))

  unfoldable pub load_parity_files : List Bytes → Result Error (List File)
  load_parity_files [] = ok []
  load_parity_files (match ∷ matches) = do
    parity_file ← load_parity_file match
    parity_files ← load_parity_files matches
    ok (cons_found parity_file parity_files)

-- The parity shards, made long enough for an exponent: exponent+1 is a uint16, so that it is 0 for
-- the last exponent, and a negative count panics.
unfoldable pub extend_shards : ℕ → List (Option Bytes) → Result Error (List (Option Bytes))
extend_shards exponent shards =
    let wanted = (exponent + 1) % 2 ^ 16 in
    if ltb exponent (length shards)
    then ok shards
    else if ltb wanted (length shards)
    then err panic
    else ok (shards ++ replicate (wanted - length shards) none)

-- A write past the end panics.
unfoldable pub put_shard : ℕ → Bytes → List (Option Bytes) → Result Error (List (Option Bytes))
put_shard exponent data_bytes shards =
    if ltb exponent (length shards) then ok (set shards exponent (some data_bytes)) else err panic

unfoldable pub put_recovery :
    List (ℕ × Bytes) → List (Option Bytes) → Result Error (List (Option Bytes))
put_recovery [] shards = ok shards
put_recovery ((exponent, data_bytes) ∷ packets) shards = do
  extended ← extend_shards exponent shards
  shards' ← put_shard exponent data_bytes extended
  put_recovery packets shards'

unfoldable pub put_files : List File → List (Option Bytes) → Result Error (List (Option Bytes))
put_files [] shards = ok shards
put_files (file ∷ files) shards = do
  shards' ← put_recovery file.recovery_packets shards
  put_files files shards'

unfoldable pub load_parity_data :
    (Bytes → Bytes) → (io : FileIo) → io.Disk → Decoder → Result Error Decoder
load_parity_data md5 io disk d = do
  matches ←
      io.find_with_prefix_and_suffix disk (path_base d.index_path ++ (dot ∷ []))
        (path_ext d.index_path)
  parity_files ← load_parity_files md5 io disk d matches
  parity_shards ← put_files parity_files []
  ok (record d { parity_shards = parity_shards })
