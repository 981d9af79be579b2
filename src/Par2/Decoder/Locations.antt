-- ===== src/Par2/Decoder/Locations.antt =====
-- checksumShardLocationMap of par2/decoder.go.
use gopar.Common.{ℕ, ◌+◌, ◌*◌, ◌==◌, Option, none, some, List, [], ◌∷◌, lookup, insert}
use gopar.Common.Bytes.{Bytes, same_bytes, get_le}
use gopar.Par2.IfscPacket.{ChecksumPair}
use gopar.Par2.Decoder.{InputFileInfo, ShardLocation, add_location, LocationMap}

-- A value that is not there is that of no places.
abbrev pub or_none : {A : Type 0} → Option (List A) → List A
or_none none = []
or_none (some xs) = xs

unfoldable pub put : LocationMap → ℕ → Bytes → ShardLocation → LocationMap
put m crc32 md5_hash location =
    let by_crc = or_none (lookup ◌==◌ crc32 m) in
    let by_md5 = or_none (lookup same_bytes md5_hash by_crc) in
    insert ◌==◌ crc32 (insert same_bytes md5_hash (add_location location by_md5) by_crc) m

unfoldable pub get : (Bytes → Bytes) → LocationMap → ℕ → Bytes → List ShardLocation
get md5 m crc32 data_bytes =
    or_none (lookup same_bytes (md5 data_bytes) (or_none (lookup ◌==◌ crc32 m)))

-- The loop over the checksum pairs of a file, from the index `i` on, and that over the files.
unfoldable pub put_pairs : ℕ → Bytes → ℕ → List ChecksumPair → LocationMap → LocationMap
put_pairs slice_byte_count file_id i [] m = m
put_pairs slice_byte_count file_id i (pair ∷ pairs) m =
    put_pairs slice_byte_count file_id (i + 1) pairs (
      put m (get_le pair.crc32) pair.md5
        (record { file_id = file_id; start = i * slice_byte_count }))

unfoldable pub put_infos : ℕ → List InputFileInfo → LocationMap → LocationMap
put_infos slice_byte_count [] m = m
put_infos slice_byte_count (info ∷ infos) m =
    put_infos slice_byte_count infos
      (put_pairs slice_byte_count info.file_id 0 info.checksum_pairs m)

unfoldable pub make_checksum_shard_location_map : ℕ → List InputFileInfo → LocationMap
make_checksum_shard_location_map slice_byte_count infos = put_infos slice_byte_count infos []
