-- ===== src/Par1/Tests.antt =====
-- The theorems at concrete inputs, with a digest of 16 bytes in the place of MD5.
use gopar.Common.{◌≡◌, refl, [], ◌∷◌, ◌++◌, length, replicate, arith}
use gopar.Common.Bytes.{Bytes, put_le, get_le, length-put_le, ok}
use gopar.Par1.Header
use gopar.Par1.Header.{Header, read_header, write_header, read_header-write_header, expected_id}
use gopar.Par1.FileEntry.{
  FileEntry, read_file_entry, write_file_entry, with_entry_bytes, encode_file_entry_header,
  encode_utf16_le_string, utf16_encode, unit_bytes,
}
use gopar.Par1.FileEntry.RoundTrip
use gopar.Par1.FileEntry.RoundTrip.{read_file_entry-write_file_entry}
use gopar.Par1.Volume
use gopar.Par1.Volume.{
  Volume, set_hash_input, write_entries, written_header, read_volume, write_volume,
  read_volume-write_volume,
}

abbrev digest : Bytes → Bytes
digest bs = put_le 16 (get_le bs)

digest_size : (bs : Bytes) → length (digest bs) ≡ 16
digest_size bs = length-put_le 16 (get_le bs)

abbrev index_header : Header
index_header = record {
  id = expected_id;
  version_number = 0x10000;
  control_hash = replicate 16 0;
  set_hash = replicate 16 1;
  volume_number = 0;
  file_count = 1;
  file_list_offset = 0x60;
  file_list_bytes = 58;
  data_offset = 154;
  data_bytes = 0;
}

index_header-IsValid : Header.IsValid index_header
index_header-IsValid = record {
  id_eq = refl;
  version_eq = refl;
  version_fits = omega arith;
  control_size = refl;
  set_size = refl;
  volume_fits = omega arith;
  count_fits = omega arith;
  offset_eq = refl;
  list_fits = omega arith;
  data_offset_fits = omega arith;
  data_fits = omega arith;
}

read_header-write_header_example :
    read_header (write_header index_header ++ (7 ∷ [])) ≡ ok (index_header, 7 ∷ [])
read_header-write_header_example =
    read_header-write_header index_header (7 ∷ []) index_header-IsValid

-- A name with a rune above the basic plane.
abbrev entry : FileEntry
entry = record {
  header = record {
    entry_bytes = 0;
    status = 1;
    file_bytes = 5;
    hash = replicate 16 2;
    sixteen_k_hash = replicate 16 3;
  };
  filename = b'a' ∷ 0x1f600 ∷ [];
}

entry-IsValid : RoundTrip.IsValid entry
unfolding encode_utf16_le_string utf16_encode unit_bytes
entry-IsValid = record {
  status_fits = omega arith;
  bytes_fit = omega arith;
  hash_size = refl;
  sixteen_k_hash_size = refl;
  runes = ((refl, omega arith), ((refl, omega arith), tt));
  some_runes = omega arith;
  name_fits = omega arith;
}

read_file_entry-write_file_entry_example :
    read_file_entry (write_file_entry entry ++ (7 ∷ [])) ≡ ok (with_entry_bytes entry, 7 ∷ [])
read_file_entry-write_file_entry_example =
    read_file_entry-write_file_entry entry (7 ∷ []) entry-IsValid

abbrev index_volume : Volume
index_volume = record {
  header = index_header;
  set_hash = [];
  entries = entry ∷ [];
  data_bytes = 1 ∷ 2 ∷ [];
}

index_volume-IsValid : Volume.IsValid index_volume
unfolding encode_utf16_le_string utf16_encode unit_bytes write_entries write_file_entry
    encode_file_entry_header
index_volume-IsValid = record {
  id_eq = refl;
  version_eq = refl;
  version_fits = omega arith;
  control_size = refl;
  set_size = refl;
  volume_fits = omega arith;
  entries_valid = (entry-IsValid, tt);
  count_fits = omega arith;
  list_fits = omega arith;
  data_fits = omega arith;
}

read_volume-write_volume_example :
    read_volume digest (write_volume digest index_volume)
    ≡ ok (record {
      header = written_header digest index_volume;
      set_hash = digest (set_hash_input (entry ∷ []));
      entries = with_entry_bytes entry ∷ [];
      data_bytes = 1 ∷ 2 ∷ [];
    })
read_volume-write_volume_example =
    read_volume-write_volume digest digest_size index_volume index_volume-IsValid
