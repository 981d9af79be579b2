-- ===== src/Par2/Tests/Write.antt =====
-- A file of one described file and one recovery packet, written and read.
use gopar.Common.{
  ℕ, ◌%◌, ◌<◌, ◌^◌, ◌≡◌, ◌==◌, refl, [], ◌∷◌, replicate, none, some, lookup, arith, Bool-cases, inl,
  inr, length,
}
use mathlib.Core.Path.{subst}
use gopar.Common.Bytes.{Bytes, same_bytes_refl, ok}
use gopar.Par2.MainPacket.{MainPacket}
use gopar.Par2.MainPacket.Order.{IsId, one_left, none_left}
use gopar.Par2.MainPacket.RoundTrip.{IsValid}
use gopar.Par2.FileDescriptionPacket.{compute_file_id}
use gopar.Par2.File.{File, read_file}
use gopar.Par2.File.Write.{write_file}
use gopar.Par2.File.Write.ReadBack.{IsDescribed}
use gopar.Par2.File.Write.Whole.{IsWritable, IsReadBack, read_file-write_file}
use gopar.Par2.Tests.{digest, digest_size, name, pair, description, description-IsValid}

abbrev file_id : Bytes
file_id = compute_file_id digest (replicate 16 2) 7 name

file_id-IsId : IsId file_id
unfolding compute_file_id
file_id-IsId = (refl, ground arith)

abbrev main_packet : MainPacket
main_packet = record { slice_byte_count = 8; recovery_set = file_id ∷ []; non_recovery_set = [] }

main_packet-IsValid : IsValid main_packet
main_packet-IsValid = record {
  some_bytes = omega arith;
  is_int = omega arith;
  aligned = refl;
  some_ids = omega arith;
  few_ids = omega arith;
  ids = (file_id-IsId, tt);
  other_ids = tt;
  ascending = one_left file_id;
  others_ascending = none_left;
}

abbrev whole_file : File
whole_file = record {
  client_id = name;
  main_packet = some main_packet;
  file_description_packets = (file_id, description) ∷ [];
  ifsc_packets = (file_id, pair ∷ []) ∷ [];
  recovery_packets = (0, replicate 8 9) ∷ [];
  unknown_packets = [];
}

whole_file-IsDescribed : IsDescribed digest digest_size whole_file file_id
whole_file-IsDescribed = record {
  description = description;
  has_description = ground (arith, same_bytes_refl file_id);
  is_valid = description-IsValid;
  is_id = refl;
  short_name = omega arith;
  pair = pair;
  pairs = [];
  has_checksums = ground (arith, same_bytes_refl file_id);
  sizes = ((refl, refl), tt);
  few_pairs = omega arith;
}

recovery_aligned :
    (e : ℕ) (data_bytes : Bytes)
    → lookup ◌==◌ e whole_file.recovery_packets ≡ some data_bytes
    → (e < 2 ^ 16)
      × (0 < length data_bytes)
      × (length data_bytes % 4 ≡ 0)
      × (length data_bytes < 2 ^ 60)
recovery_aligned e data_bytes h = elim (Bool-cases (e == 0)) [
  | inl t ↦
      let same : replicate 8 9 ≡ data_bytes = ground arith in
      subst
        (λ (b : Bytes). (e < 2 ^ 16) × (0 < length b) × (length b % 4 ≡ 0) × (length b < 2 ^ 60))
        same (ground arith, omega arith, refl, omega arith)
  | inr t ↦ absurd (ground arith)
]

whole_file-IsWritable : IsWritable digest digest_size whole_file main_packet
whole_file-IsWritable = record {
  has_main = refl;
  main_valid = main_packet-IsValid;
  few_others = omega arith;
  some_client = omega arith;
  client_text = ground arith;
  short_client = omega arith;
  described = ((whole_file-IsDescribed, file_id-IsId.0), tt);
  recovery = recovery_aligned;
  no_others = refl;
}

read_file-write_file_example :
    (set_id : Bytes) × (file_bytes : Bytes) × (write_file digest whole_file
      ≡ ok (set_id, file_bytes))
    × ((file' : File) × (read_file digest none file_bytes ≡ some (ok (set_id, file')))
        × IsReadBack digest digest_size whole_file main_packet file')
read_file-write_file_example =
    read_file-write_file digest digest_size whole_file main_packet whole_file-IsWritable
