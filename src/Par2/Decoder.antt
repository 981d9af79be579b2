-- ===== src/Par2/Decoder.antt =====
-- par2/decoder.go: the state of the decoder, newDecoder and the counts of shards. The calls of the
-- delegate, which only tell the caller what is found, are left out.
pub mod Locations
pub mod Load
pub mod Parity
pub mod Repair
use gopar.Common.{
  ℕ, zero, suc, ◌+◌, ◌*◌, ltb, leb, ◌==◌, ◌&&◌, ◌||◌, not, if◌then◌else◌, Bool, true, false, Option,
  none, some, List, [], ◌∷◌, ◌++◌, length, map, lookup,
}
use gopar.Common.Bytes.{Bytes, same_bytes, Result, ok, err, ◌>>=◌, ◌>>◌, guard}
use gopar.Par2.Error.{
  Error, no_file_description, no_checksums, no_main_packet, recovery_packets_in_index, out_of_fuel,
}
use gopar.Par2.FileIo.{FileIo}
use gopar.Par2.FileDescriptionPacket.{FileDescriptionPacket}
use gopar.Par2.IfscPacket.{ChecksumPair}
use gopar.Par2.MainPacket.{MainPacket}
use gopar.Par2.File.{File, read_file}
use gopar.Par2.File.Write.{find}
use gopar.Par2.Paths.{path_dir, join_path}

pub record InputFileInfo : Type 0 where
  pub file_id : Bytes
  pub filename : Bytes
  pub byte_count : ℕ
  pub sixteen_k_hash : Bytes
  pub hash : Bytes
  pub checksum_pairs : List ChecksumPair

unfoldable pub input_file_info_ids : List InputFileInfo → List Bytes
input_file_info_ids [] = []
input_file_info_ids (info ∷ infos) = info.file_id ∷ input_file_info_ids infos

unfoldable pub make_input_file_infos :
    List Bytes
    → List (Bytes × FileDescriptionPacket)
    → List (Bytes × List ChecksumPair)
    → Result Error (List InputFileInfo)
make_input_file_infos [] descriptions checksums = ok []
make_input_file_infos (file_id ∷ file_ids) descriptions checksums = do
  description ← find (lookup same_bytes file_id descriptions) no_file_description
  pairs ← find (lookup same_bytes file_id checksums) no_checksums
  infos ← make_input_file_infos file_ids descriptions checksums
  ok (
      record {
        file_id = file_id;
        filename = description.filename;
        byte_count = description.byte_count;
        sixteen_k_hash = description.sixteen_k_hash;
        hash = description.hash;
        checksum_pairs = pairs;
      }
      ∷ infos)

-- A place in a data file, and a set of places.
pub record ShardLocation : Type 0 where
  pub file_id : Bytes
  pub start : ℕ

unfoldable pub same_location : ShardLocation → ShardLocation → Bool
same_location l l' = same_bytes l.file_id l'.file_id && l.start == l'.start

unfoldable pub has_location : ShardLocation → List ShardLocation → Bool
has_location l [] = false
has_location l (l' ∷ ls) = same_location l l' || has_location l ls

unfoldable pub add_location : ShardLocation → List ShardLocation → List ShardLocation
add_location l ls = if has_location l ls then ls else l ∷ ls

-- The data of a shard is none where the source has nil.
pub record ShardIntegrityInfo : Type 0 where
  pub shard_data : Option Bytes
  pub locations : List ShardLocation

abbrev pub no_shard : ShardIntegrityInfo
no_shard = record { shard_data = none; locations = [] }

abbrev pub is_empty : Option Bytes → Bool
is_empty none = true
is_empty (some shard) = length shard == 0

unfoldable pub shard_ok : ShardIntegrityInfo → ShardLocation → Bool
shard_ok info location = not (is_empty info.shard_data) && has_location location info.locations

pub record FileIntegrityInfo : Type 0 where
  pub file_id : Bytes
  pub missing : Bool
  pub hash_mismatch : Bool
  pub has_wrong_byte_count : Bool
  pub shard_infos : List ShardIntegrityInfo

-- The loop of allShardsOK, from the shard `i` on.
unfoldable pub all_shards_ok : ℕ → Bytes → ℕ → List ShardIntegrityInfo → Bool
all_shards_ok slice_byte_count file_id i [] = true
all_shards_ok slice_byte_count file_id i (info ∷ infos) =
    shard_ok info (record { file_id = file_id; start = i * slice_byte_count })
    && all_shards_ok slice_byte_count file_id (i + 1) infos

unfoldable pub file_ok : ℕ → FileIntegrityInfo → Bool
file_ok slice_byte_count info =
    not info.missing
    && (not info.hash_mismatch
        && (not info.has_wrong_byte_count
            && all_shards_ok slice_byte_count info.file_id 0 info.shard_infos))

-- From a CRC32 and an MD5 hash to the places that have them.
abbrev pub LocationMap : Type 0
LocationMap = List (ℕ × List (Bytes × List ShardLocation))

pub record Decoder : Type 0 where
  pub index_path : Bytes
  pub set_id : Bytes
  pub client_id : Bytes
  pub slice_byte_count : ℕ
  pub recovery_set : List InputFileInfo
  pub non_recovery_set : List InputFileInfo
  pub num_goroutines : ℕ
  pub checksum_to_location : LocationMap
  pub file_integrity_infos : List FileIntegrityInfo
  pub parity_shards : List (Option Bytes)

abbrev pub finished : {A : Type 0} → Option (Result Error A) → Result Error A
finished none = err out_of_fuel
finished (some r) = r

module _ (md5 : Bytes → Bytes) (io : FileIo) where
  unfoldable pub new_decoder : io.Disk → Bytes → ℕ → Result Error Decoder
  new_decoder disk index_path num_goroutines = do
    index_bytes ← io.read_file disk index_path
    (set_id, index_file) ← finished (read_file md5 none index_bytes)
    main_packet ← find index_file.main_packet no_main_packet
    guard (not (ltb 0 (length index_file.recovery_packets))) recovery_packets_in_index
    recovery_set ←
        make_input_file_infos main_packet.recovery_set index_file.file_description_packets
          index_file.ifsc_packets
    non_recovery_set ←
        make_input_file_infos main_packet.non_recovery_set index_file.file_description_packets
          index_file.ifsc_packets
    ok (record {
      index_path = index_path;
      set_id = set_id;
      client_id = index_file.client_id;
      slice_byte_count = main_packet.slice_byte_count;
      recovery_set = recovery_set;
      non_recovery_set = non_recovery_set;
      num_goroutines = num_goroutines;
      checksum_to_location = [];
      file_integrity_infos = [];
      parity_shards = [];
    })

unfoldable pub get_file_path : Decoder → InputFileInfo → Bytes
get_file_path d info = join_path (path_dir d.index_path) info.filename

pub record ShardCounts : Type 0 where
  pub usable_data_shard_count : ℕ
  pub unusable_data_shard_count : ℕ
  pub usable_parity_shard_count : ℕ
  pub unusable_parity_shard_count : ℕ

unfoldable pub repair_needed : ShardCounts → Bool
repair_needed fc = ltb 0 fc.unusable_data_shard_count

unfoldable pub repair_possible : ShardCounts → Bool
repair_possible fc = leb fc.unusable_data_shard_count fc.usable_parity_shard_count

-- The shards that are there, and those that are nil, after `usable` and `unusable` others.
unfoldable pub count_shards : List (Option Bytes) → ℕ × ℕ → ℕ × ℕ
count_shards [] (usable, unusable) = (usable, unusable)
count_shards (none ∷ shards) (usable, unusable) = count_shards shards (usable, unusable + 1)
count_shards (some shard ∷ shards) (usable, unusable) = count_shards shards (usable + 1, unusable)

unfoldable pub shards_of : List ShardIntegrityInfo → List (Option Bytes)
shards_of [] = []
shards_of (info ∷ infos) = info.shard_data ∷ shards_of infos

unfoldable pub all_shards : List FileIntegrityInfo → List (Option Bytes)
all_shards [] = []
all_shards (info ∷ infos) = shards_of info.shard_infos ++ all_shards infos

unfoldable pub shard_counts : Decoder → ShardCounts
shard_counts d =
    let (usable_data, unusable_data) = count_shards (all_shards d.file_integrity_infos) (0, 0) in
    let (usable_parity, unusable_parity) = count_shards d.parity_shards (0, 0) in
    record {
      usable_data_shard_count = usable_data;
      unusable_data_shard_count = unusable_data;
      usable_parity_shard_count = usable_parity;
      unusable_parity_shard_count = unusable_parity;
    }
