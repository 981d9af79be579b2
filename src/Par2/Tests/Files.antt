-- ===== src/Par2/Tests/Files.antt =====
-- The windows, the shards, the volumes and the search at small data files.
use gopar.Common.{ℕ, ◌<◌, ◌≡◌, refl, some, List, [], ◌∷◌, replicate, All, arith}
use gopar.Common.Bytes.{Bytes, ok}
use gopar.Par2.Crc32.{Crc32Window, update, checksum_ieee}
use gopar.Par2.Crc32.Window.{new_crc32_window-some, update-checksum_ieee}
use gopar.Par2.DataFile.{checksum_pair, sixteen_k_hash}
use gopar.Par2.Encoder.{Encoder, volumes}
use gopar.Par2.Encoder.Volumes.{written_packets, numbered, written_packets-numbered}
use gopar.Par2.Decoder.{InputFileInfo, LocationMap}
use gopar.Par2.Decoder.Locations.{make_checksum_shard_location_map}
use gopar.Par2.Tests.{digest, name}

abbrev window : Crc32Window
window = (new_crc32_window-some 4 (omega arith) (omega arith)).0

update-checksum_ieee_example :
    update window (checksum_ieee (1 ∷ 2 ∷ 3 ∷ 4 ∷ [])) 1 5 ≡ checksum_ieee (2 ∷ 3 ∷ 4 ∷ 5 ∷ [])
update-checksum_ieee_example =
    update-checksum_ieee 4 window 1 5 (2 ∷ 3 ∷ 4 ∷ [])
      (new_crc32_window-some 4 (omega arith) (omega arith)).1 (omega arith) refl

abbrev six_bytes : Bytes
six_bytes = 1 ∷ 2 ∷ 3 ∷ 4 ∷ 5 ∷ 6 ∷ []

abbrev encoder : Encoder
encoder = record {
  base_path = [];
  rel_file_paths = [];
  slice_byte_count = 4;
  parity_shard_count = 4;
  num_goroutines = 1;
  recovery_set = [];
  recovery_set_infos = [];
  parity_shards = replicate 4 1 ∷ replicate 4 2 ∷ replicate 4 3 ∷ replicate 4 4 ∷ [];
}

written_packets-numbered_example :
    (vs : List (ℕ × ℕ)) × (volumes 5 4 0 1 ≡ some vs)
    × ((written_packets encoder vs ≡ ok (numbered encoder 0 4)) × All (λ v. 0 < v.1) vs)
written_packets-numbered_example = written_packets-numbered encoder refl (omega arith)

-- A file of two slices, of which the data file has lost a byte in front of the second.
abbrev info : InputFileInfo
info = record {
  file_id = 7 ∷ [];
  filename = name;
  byte_count = 8;
  sixteen_k_hash = [];
  hash = [];
  checksum_pairs =
      checksum_pair digest (1 ∷ 2 ∷ 3 ∷ 4 ∷ []) ∷ checksum_pair digest (5 ∷ 6 ∷ 7 ∷ 8 ∷ []) ∷ [];
}

abbrev locations : LocationMap
locations = make_checksum_shard_location_map 4 (info ∷ [])

abbrev damaged : Bytes
damaged = 1 ∷ 2 ∷ 3 ∷ 5 ∷ 6 ∷ 7 ∷ 8 ∷ []
