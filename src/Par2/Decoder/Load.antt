-- ===== src/Par2/Decoder/Load.antt =====
-- LoadFileData of par2/decoder.go: the search for the slices of the files in the data files. The
-- calls of the delegate are left out, and with them the loops that only find what to tell it.
pub mod Places
pub mod Slices
pub mod Rolling
use gopar.Common.{
  ℕ, zero, suc, ◌+◌, ◌-◌, ◌*◌, ◌/◌, ltb, ◌==◌, ◌&&◌, ◌||◌, not, if◌then◌else◌, Bool, true, false,
  Option, none, some, List, [], ◌∷◌, length, get_or, set, lookup, insert, replicate,
}
use gopar.Common.Bytes.{Bytes, same_bytes, Result, ok, err, ◌>>=◌}
use gopar.Par2.Error.{Error, not_exist, panic, out_of_fuel}
use gopar.Par2.FileIo.{FileIo}
use gopar.Par2.Crc32.{Crc32Window, new_crc32_window, update, checksum_ieee}
use gopar.Par2.DataFile.{slice_and_pad_byte_array, sixteen_k_hash}
use gopar.Par2.Decoder.{
  InputFileInfo, ShardLocation, add_location, ShardIntegrityInfo, no_shard, FileIntegrityInfo,
  LocationMap, Decoder, get_file_path,
}
use gopar.Par2.Decoder.Locations.{get, make_checksum_shard_location_map}

abbrev pub or_zero : Option ℕ → ℕ
or_zero none = 0
or_zero (some i) = i

abbrev pub no_file : FileIntegrityInfo
no_file = record {
  file_id = [];
  missing = false;
  hash_mismatch = false;
  has_wrong_byte_count = false;
  shard_infos = [];
}

-- A slice that was found at a place, for a shard whose data may be there already.
unfoldable pub found_shard : Bytes → ShardLocation → ShardIntegrityInfo → ShardIntegrityInfo
found_shard slice location info = elim info.shard_data [
  | none ↦ record { shard_data = some slice; locations = location ∷ [] }
  | some shard ↦ record info { locations = add_location location info.locations }
]

-- `none` is the panic of an index that is out of range.
unfoldable pub store :
    ℕ
    → List (Bytes × ℕ)
    → Bytes
    → ShardLocation
    → ShardLocation
    → List FileIntegrityInfo
    → Option (List FileIntegrityInfo)
store slice_byte_count indices slice location found infos =
    let i = or_zero (lookup same_bytes found.file_id indices) in
    let k = found.start / slice_byte_count in
    let info = get_or infos i no_file in
    if ltb i (length infos) && ltb k (length info.shard_infos)
    then some (
        set infos i (record info {
          shard_infos =
              set info.shard_infos k
                (found_shard slice location (get_or info.shard_infos k no_shard));
        }))
    else none

unfoldable pub store_all :
    ℕ
    → List (Bytes × ℕ)
    → Bytes
    → ShardLocation
    → List ShardLocation
    → List FileIntegrityInfo
    → Option (List FileIntegrityInfo)
store_all slice_byte_count indices slice location [] infos = some infos
store_all slice_byte_count indices slice location (found ∷ rest) infos =
    elim (store slice_byte_count indices slice location found infos) [
      | none ↦ none
      | some infos' ↦ store_all slice_byte_count indices slice location rest infos'
    ]

-- What fillShardInfos leaves.
pub record Search : Type 0 where
  pub infos : List FileIntegrityInfo
  pub hits : ℕ
  pub misses : ℕ

-- The CRC32 of the slice at `j`: after a miss it is that of the window moved on.
unfoldable pub next_crc : Bytes → Crc32Window → ℕ → Bool → ℕ → Bytes → ℕ
next_crc data_bytes window j just_missed crc_slice slice =
    if just_missed
    then update window crc_slice (get_or data_bytes (j - 1) 0) (get_or slice (length slice - 1) 0)
    else checksum_ieee slice

module _ (md5 : Bytes → Bytes) (slice_byte_count : ℕ) (m : LocationMap) (indices : List (Bytes × ℕ))
    (file_id : Bytes) (data_bytes : Bytes) where
  -- The loop of fillShardInfos at the offset `j`.
  unfoldable pub fill_loop : ℕ → Crc32Window → ℕ → Bool → ℕ → Search → Result Error Search
  fill_loop zero window j just_missed crc_slice s = err out_of_fuel
  fill_loop (suc fuel) window j just_missed crc_slice s =
      let slice = slice_and_pad_byte_array data_bytes j (j + slice_byte_count) in
      let crc = next_crc data_bytes window j just_missed crc_slice slice in
      let found = get md5 m crc slice in
      let missed = fill_loop fuel window (j + 1) true crc (record s { misses = s.misses + 1 }) in
      let hit : Result Error Search =
        elim (store_all slice_byte_count indices slice (record { file_id = file_id; start = j })
          found s.infos) [
            | none ↦ err panic
            | some infos ↦
                fill_loop fuel window (j + slice_byte_count) false crc
                  (record s { infos = infos; hits = s.hits + 1 })
          ] in
      if not (ltb j (length data_bytes)) then ok s else if length found == 0 then missed else hit

  -- A turn for each byte, and one more, is enough. A window that is too small or too large
  -- panics.
  unfoldable pub fill_shard_infos : List FileIntegrityInfo → Result Error Search
  fill_shard_infos infos = elim (new_crc32_window slice_byte_count) [
    | none ↦ err panic
    | some window ↦
        fill_loop (suc (length data_bytes)) window 0 false 0
          (record { infos = infos; hits = 0; misses = 0 })
  ]

module _ (md5 : Bytes → Bytes) (io : FileIo) (disk : io.Disk) (d : Decoder) (m : LocationMap)
    (indices : List (Bytes × ℕ)) where
  -- What the data of the file `i` says of it.
  unfoldable pub checked : InputFileInfo → Bytes → FileIntegrityInfo → FileIntegrityInfo
  checked info data_bytes integrity = record integrity {
    hash_mismatch =
        not (same_bytes (sixteen_k_hash md5 data_bytes) info.sixteen_k_hash)
        || not (same_bytes (md5 data_bytes) info.hash);
    has_wrong_byte_count = not (length data_bytes == info.byte_count);
  }

  -- fillFileIntegrityInfos once it has read the file, or failed to.
  unfoldable pub fill_read :
      ℕ
      → InputFileInfo
      → List FileIntegrityInfo
      → Result Error Bytes
      → Result Error (List FileIntegrityInfo)
  fill_read i info infos (err not_exist) =
      ok (set infos i (record (get_or infos i no_file) { missing = true }))
  fill_read i info infos (err e) = err e
  fill_read i info infos (ok data_bytes) = do
    s ← fill_shard_infos md5 d.slice_byte_count m indices info.file_id data_bytes infos
    ok (set s.infos i (checked info data_bytes (get_or s.infos i no_file)))

  unfoldable pub fill_file_integrity_infos :
      ℕ → InputFileInfo → List FileIntegrityInfo → Result Error (List FileIntegrityInfo)
  fill_file_integrity_infos i info infos =
      fill_read i info infos (io.read_file disk (get_file_path d info))

  -- The loop of LoadFileData over the files, from the index `i` on.
  unfoldable pub fill_files :
      ℕ → List InputFileInfo → List FileIntegrityInfo → Result Error (List FileIntegrityInfo)
  fill_files i [] infos = ok infos
  fill_files i (info ∷ rest) infos = do
    infos' ← fill_file_integrity_infos i info infos
    fill_files (i + 1) rest infos'

-- The infos and the indices that LoadFileData begins with.
unfoldable pub empty_infos : List InputFileInfo → List FileIntegrityInfo
empty_infos [] = []
empty_infos (info ∷ infos) =
    record no_file {
      file_id = info.file_id;
      shard_infos = replicate (length info.checksum_pairs) no_shard;
    }
    ∷ empty_infos infos

unfoldable pub file_id_indices : ℕ → List InputFileInfo → List (Bytes × ℕ) → List (Bytes × ℕ)
file_id_indices i [] indices = indices
file_id_indices i (info ∷ infos) indices =
    file_id_indices (i + 1) infos (insert same_bytes info.file_id i indices)

unfoldable pub load_file_data :
    (Bytes → Bytes) → (io : FileIo) → io.Disk → Decoder → Result Error Decoder
load_file_data md5 io disk d = do
  let m = make_checksum_shard_location_map d.slice_byte_count d.recovery_set
  infos ←
      fill_files md5 io disk d m (file_id_indices 0 d.recovery_set []) 0 d.recovery_set
        (empty_infos d.recovery_set)
  ok (record d { checksum_to_location = m; file_integrity_infos = infos })
