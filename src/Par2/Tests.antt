-- ===== src/Par2/Tests.antt =====
-- The theorems of the packets at concrete inputs, with a digest of 16 bytes in the place of MD5.
pub mod Write
pub mod Files
pub mod Repair
use gopar.Common.{
  ℕ, ◌^◌, ◌≡◌, ◌<◌, ◌↔◌, refl, true, false, List, [], ◌∷◌, ◌++◌, length, replicate, none, some,
  arith,
}
use gopar.Common.Bytes.{Bytes, put_le, get_le, length-put_le, Result, ok, ◌>>=◌}
use gopar.Par2.Error.{Error}
use gopar.Par2.Strings.{
  read_creator_packet, write_creator_packet, read_creator_packet-write_creator_packet,
  null_terminate, replace_non_ascii, decode_null_padded_ascii_string,
}
use gopar.Par2.Filename.{
  is_abs, split_path, push_part, push_parts, join_reversed, clean, check_filename,
}
use gopar.Par2.Filename.Inside.{walk, check_filename-inside}
use gopar.Par2.MainPacket.{
  file_id_less, slice_is_sorted, check_file_id_sets_sorted, MainPacket, read_main_packet,
  write_main_packet,
}
use gopar.Par2.MainPacket.Order.{IsId, file_id_less_lem, one_left, none_left, ascend}
use gopar.Par2.MainPacket.RoundTrip.{IsValid, read_main_packet-write_main_packet}
use gopar.Par2.MainPacket.Valid.{read_main_packet-IsValid}
use gopar.Par2.IfscPacket.{
  ChecksumPair, read_ifsc_packet, write_ifsc_packet, read_ifsc_packet-write_ifsc_packet,
}
use gopar.Par2.RecoveryPacket.{
  read_recovery_packet, write_recovery_packet, read_recovery_packet-write_recovery_packet,
}
use gopar.Par2.FileDescriptionPacket
use gopar.Par2.FileDescriptionPacket.{
  FileDescriptionPacket, compute_file_id, read_file_description_packet,
  write_file_description_packet, read_file_description_packet-write_file_description_packet,
  read_file_description_packet-inside,
}
use gopar.Par2.Packet.{read_next_packet, write_next_packet}
use gopar.Par2.Packet.RoundTrip.{read_next_packet-write_next_packet}
use gopar.Par2.File.{
  File, nothing_found, finish_file, read_file, write_packets, creator_packet_type, main_packet_type,
}
use gopar.Par2.File.Loop.{read_file-total}
use gopar.Par2.File.Written.{handle_packets, read_file-write_packets}

abbrev pub digest : Bytes → Bytes
digest bs = put_le 16 (get_le bs)

digest_size : (bs : Bytes) → length (digest bs) ≡ 16
digest_size bs = length-put_le 16 (get_le bs)

abbrev pub name : Bytes
name = b'a' ∷ b'/' ∷ b'b' ∷ []

name_accepted : check_filename name ≡ ok tt
unfolding check_filename clean is_abs split_path push_part push_parts join_reversed
name_accepted = refl

abbrev low_id : Bytes
low_id = 9 ∷ replicate 15 0

abbrev high_id : Bytes
high_id = replicate 15 0 ++ (1 ∷ [])

low_id-IsId : IsId low_id
low_id-IsId = ground arith

high_id-IsId : IsId high_id
high_id-IsId = ground arith

abbrev two_files : MainPacket
two_files = record {
  slice_byte_count = 8;
  recovery_set = low_id ∷ high_id ∷ [];
  non_recovery_set = [];
}

two_files-IsValid : IsValid two_files
two_files-IsValid = record {
  some_bytes = omega arith;
  is_int = omega arith;
  aligned = refl;
  some_ids = omega arith;
  few_ids = omega arith;
  ids = (low_id-IsId, (high_id-IsId, tt));
  other_ids = tt;
  ascending = ascend low_id high_id [] (omega arith) (one_left high_id);
  others_ascending = none_left;
}

read_main_packet-write_main_packet_example :
    (body : Bytes) × (write_main_packet two_files ≡ ok body)
    × (read_main_packet body ≡ ok two_files)
read_main_packet-write_main_packet_example =
    read_main_packet-write_main_packet two_files two_files-IsValid

abbrev one_file_body : Bytes
one_file_body = put_le 8 8 ++ (put_le 4 1 ++ low_id)

abbrev one_file : MainPacket
one_file = record { slice_byte_count = 8; recovery_set = low_id ∷ []; non_recovery_set = [] }

one_file_read : read_main_packet one_file_body ≡ ok one_file
unfolding read_main_packet check_file_id_sets_sorted slice_is_sorted
one_file_read = refl

read_main_packet-IsValid_example : IsValid one_file
read_main_packet-IsValid_example =
    read_main_packet-IsValid one_file_body one_file (ground arith) one_file_read

abbrev pub pair : ChecksumPair
pair = record { md5 = replicate 16 3; crc32 = replicate 4 5 }

abbrev description : FileDescriptionPacket
description = record {
  hash = replicate 16 1;
  sixteen_k_hash = replicate 16 2;
  byte_count = 7;
  filename = name;
}

abbrev description_body : Bytes
description_body =
    digest (replicate 16 2 ++ (put_le 8 7 ++ name))
    ++ (replicate 16 1 ++ (replicate 16 2 ++ (put_le 8 7 ++ name)))

description-IsValid : FileDescriptionPacket.IsValid description
description-IsValid = record {
  hash_size = refl;
  sixteen_k_hash_size = refl;
  some_bytes = omega arith;
  is_int = omega arith;
  is_text = ground arith;
  accepted = name_accepted;
}

read_file_description_packet-write_file_description_packet_example :
    let file_id = compute_file_id digest (replicate 16 2) 7 name in
    (body : Bytes) × (write_file_description_packet digest file_id description ≡ ok body)
    × (read_file_description_packet digest (body ++ replicate 1 0) ≡ ok (file_id, description))
read_file_description_packet-write_file_description_packet_example =
    read_file_description_packet-write_file_description_packet digest digest_size description 1
      description-IsValid

description_read :
    read_file_description_packet digest description_body
    ≡ ok (digest (replicate 16 2 ++ (put_le 8 7 ++ name)), description)
unfolding read_file_description_packet compute_file_id null_terminate replace_non_ascii
    decode_null_padded_ascii_string check_filename clean is_abs split_path push_part push_parts
    join_reversed
description_read = refl

read_file_description_packet-inside_example :
    (is_abs name ≡ false)
    × (((n : ℕ) × (walk 0 (split_path [] name) ≡ some n)) × ((0 < 7) × (7 < 2 ^ 63)))
read_file_description_packet-inside_example =
    read_file_description_packet-inside digest description_body
      (digest (replicate 16 2 ++ (put_le 8 7 ++ name))) description description_read

abbrev four : Bytes
four = 1 ∷ 2 ∷ 3 ∷ 4 ∷ []

read_next_packet-write_next_packet_example :
    (out : Bytes) × (((buf : Bytes)
        → write_next_packet digest buf low_id creator_packet_type four ≡ ok (buf ++ out))
      × ((rest : Bytes)
          → read_next_packet digest (out ++ rest)
            ≡ ok (record {
              set_id = low_id;
              packet_type = creator_packet_type;
              body = four;
              rest = rest;
            })))
read_next_packet-write_next_packet_example =
    read_next_packet-write_next_packet digest digest_size low_id creator_packet_type four refl refl
      refl (omega arith)

read_file-total_example : (r : Result Error (Bytes × File)) × (read_file digest none four ≡ some r)
read_file-total_example = read_file-total digest none four

abbrev two_packets : List (Bytes × Bytes)
two_packets = (creator_packet_type, four) ∷ (main_packet_type, one_file_body) ∷ []

read_file-write_packets_example :
    (file_bytes : Bytes) × (write_packets digest [] low_id two_packets ≡ ok file_bytes)
    × (read_file digest none file_bytes
        ≡ some (handle_packets digest (nothing_found none) low_id two_packets >>= finish_file))
read_file-write_packets_example =
    read_file-write_packets digest digest_size low_id refl two_packets none
      ((refl, (refl, omega arith)), ((refl, (refl, omega arith)), tt))
