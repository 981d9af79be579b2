-- ===== src/Par2/DataFile.antt =====
-- par2/data_file.go, with sixteenKHash and sliceAndPadByteArray of par2/decoder.go: the packets and
-- the data shards of a file.
pub mod Shards
use gopar.Common.{
  ℕ, zero, suc, ◌+◌, ◌-◌, ◌*◌, ltb, if◌then◌else◌, Option, none, some, List, [], ◌∷◌, ◌++◌, length,
  take, drop, replicate, map,
}
use mathlib.Core.Option
use gopar.Common.Bytes.{Bytes, put_le}
use gopar.Par2.FileDescriptionPacket.{FileDescriptionPacket, compute_file_id}
use gopar.Par2.IfscPacket.{ChecksumPair}
use gopar.Par2.Crc32.{checksum_ieee}

-- The start is not past the end of the bytes.
unfoldable pub slice_and_pad_byte_array : Bytes → ℕ → ℕ → Bytes
slice_and_pad_byte_array bs start end =
    let pad_length = if ltb (length bs) end then end - length bs else 0 in
    let end' = if ltb (length bs) end then length bs else end in
    take (end' - start) (drop start bs) ++ replicate pad_length 0

-- What computeDataFileInfo returns.
pub record DataFileInfo : Type 0 where
  pub file_id : Bytes
  pub file_description_packet : FileDescriptionPacket
  pub checksum_pairs : List ChecksumPair
  pub data_shards : List Bytes

module _ (md5 : Bytes → Bytes) where
  unfoldable pub sixteen_k_hash : Bytes → Bytes
  sixteen_k_hash data_bytes =
      if ltb (length data_bytes) (16 * 1024)
      then md5 data_bytes
      else md5 (take (16 * 1024) data_bytes)

  unfoldable pub checksum_pair : Bytes → ChecksumPair
  checksum_pair slice = record { md5 = md5 slice; crc32 = put_le 4 (checksum_ieee slice) }

-- The slices of the loop, from the index `i` on. It is none where the fuel ends before the loop does.
unfoldable pub slices : ℕ → ℕ → Bytes → ℕ → Option (List Bytes)
slices zero slice_byte_count data_bytes i = none
slices (suc fuel) slice_byte_count data_bytes i =
    let rest = slices fuel slice_byte_count data_bytes (i + slice_byte_count) in
    if ltb i (length data_bytes)
    then Option.map (λ ss. slice_and_pad_byte_array data_bytes i (i + slice_byte_count) ∷ ss) rest
    else some []

module _ (md5 : Bytes → Bytes) where
  -- A turn for each byte, and one more, is enough.
  unfoldable pub compute_data_file_info : ℕ → Bytes → Bytes → Option DataFileInfo
  compute_data_file_info slice_byte_count filename data_bytes =
      let hash = md5 data_bytes in
      let sixteen_k = sixteen_k_hash md5 data_bytes in
      Option.map
        (λ data_shards. record {
          file_id = compute_file_id md5 sixteen_k (length data_bytes) filename;
          file_description_packet = record {
            hash = hash;
            sixteen_k_hash = sixteen_k;
            byte_count = length data_bytes;
            filename = filename;
          };
          checksum_pairs = map (checksum_pair md5) data_shards;
          data_shards = data_shards;
        })
        (slices (suc (length data_bytes)) slice_byte_count data_bytes 0)
