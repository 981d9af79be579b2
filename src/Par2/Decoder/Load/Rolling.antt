-- ===== src/Par2/Decoder/Load/Rolling.antt =====
-- The search with the rolling CRC32 finds what a search does that computes each CRC32 anew.
use gopar.Common.{
  ◌==◌, false, some, none, if◌then◌else◌, ◌+◌, zero, Bool, ◌⊎◌, ℕ, length, ltb, ◌<◌, ◌≡◌, List, suc,
  not,
}
use gopar.Common.Bytes.{Bytes, ok, Result, err}
use gopar.Par2.Crc32.{checksum_ieee}
use gopar.Par2.DataFile.{slice_and_pad_byte_array}
use gopar.Par2.Decoder.{LocationMap}
use gopar.Par2.Decoder.Locations.{get}
use gopar.Par2.Decoder.Load.{Search, store_all}
use gopar.Par2.Decoder.Load.Slices.{slice_at}
use gopar.Par2.Error.{Error, panic, out_of_fuel}

module _ (md5 : Bytes → Bytes) (slice_byte_count : ℕ) (m : LocationMap) (indices : List (Bytes × ℕ))
    (file_id : Bytes) (data_bytes : Bytes) where
  -- The search that computes the CRC32 of each slice.
  abbrev pub direct_loop : ℕ → ℕ → Search → Result Error Search
  direct_loop zero j s = err out_of_fuel
  direct_loop (suc fuel) j s =
      let slice = slice_and_pad_byte_array data_bytes j (j + slice_byte_count) in
      let found = get md5 m (checksum_ieee slice) slice in
      let missed = direct_loop fuel (j + 1) (record s { misses = s.misses + 1 }) in
      let hit : Result Error Search =
        elim (store_all slice_byte_count indices slice (record { file_id = file_id; start = j })
          found s.infos) [
            | none ↦ err panic
            | some infos ↦
                direct_loop fuel (j + slice_byte_count)
                  (record s { infos = infos; hits = s.hits + 1 })
          ] in
      if not (ltb j (length data_bytes)) then ok s else if length found == 0 then missed else hit

  -- The last CRC32 is that of the slice before, where there was one and it was missed.
  abbrev IsLast : ℕ → Bool → ℕ → Type 0
  IsLast j just_missed crc_slice =
      (just_missed ≡ false)
      ⊎ ((k : ℕ) × (j ≡ k + 1)
          × ((k < length data_bytes)
              × (crc_slice ≡ checksum_ieee (slice_at slice_byte_count data_bytes k))))
