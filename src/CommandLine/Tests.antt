-- ===== src/CommandLine/Tests.antt =====
-- The exit codes for a set of one file that is missing, with one parity shard and with none.
use gopar.Common.{
  ℕ, suc, ◌≤◌, ◌≡◌, ◌↔◌, refl, length, true, false, Option, none, some, List, [], ◌∷◌, replicate,
  arith,
}
use gopar.Common.Bytes.{Bytes, Result, ok, err}
use gopar.Rsec16.Coder.{Coder}
use gopar.Rsec16.ParityMatrix.{generators, generators_from, is_generator_index}
use gopar.Rsec16.ParityMatrix.Vandermonde.{new_coder_par2_vandermonde-made}
use gopar.Rsec16.Tests.{backwards}
use gopar.Rsec16.Tests.Coders.{tables, full, field, F, to_field}
use gopar.Memfs
use gopar.Memfs.{
  MemFs, find_with_prefix_and_suffix, has_prefix, has_suffix, matches, matching, paths, paths_of,
  to_abs_path,
}
use gopar.Par2.Error.{Error, not_enough_parity_shards}
use gopar.Par2.IfscPacket.{
  decode_checksum_pairs, encode_checksum_pairs, read_ifsc_packet, write_ifsc_packet,
}
use gopar.Par2.FileDescriptionPacket.{
  compute_file_id, read_file_description_packet, write_file_description_packet,
}
use gopar.Par2.MainPacket.{
  check_file_id_sets_sorted, read_main_packet, slice_is_sorted, write_main_packet,
}
use gopar.Par2.File.{
  agrees, File, finish_file, handle_packet, load_creator, load_file_description, load_ifsc,
  load_main, load_packet, load_recovery, pad_packet_bytes, read_file, read_packets,
}
use gopar.Par2.File.Write.{
  exponents, insert_sorted, sort_ints, write_described, write_file, write_recovery, write_set,
  write_unknown,
}
use gopar.Par2.Decoder.{
  all_shards, shards_of, count_shards, shard_counts, repair_needed, repair_possible, Decoder,
  ShardIntegrityInfo, add_location, get_file_path, has_location, input_file_info_ids,
  make_input_file_infos, new_decoder, same_location,
}
use gopar.Par2.Commands.{verify, repair_files, check_extension, load_decoder, or_default}
use gopar.Par2.Decoder.Repair.{new_coder_and_shards, reconstructed_shards}
use gopar.Par2.Decoder.Repair.Possible.{reconstructed_shards-not_enough}
use gopar.CommandLine.{
  exit_repair_not_possible, process_repair_checker, verify_exit_code, repair_exit_code,
}
use gopar.CommandLine.ExitCodes.{verify-repair_not_possible}
use gopar.Par2.Tests.{digest, name, pair}
use gopar.Par2.Tests.Repair.{mem_io, value}
use gopar.Par2.Paths.{find_ext, has_slash, join_path, path_base, path_dir, path_ext, up_to_slash}
use gopar.Par2.Filename.{
  check_filename, clean, is_abs, join_reversed, push_part, push_parts, split_path,
}
use gopar.Par2.Strings.{read_creator_packet, write_creator_packet}
use gopar.Par2.Packet.{
  check_packet_header, compute_packet_hash, decode_packet_header, encode_packet_header,
  read_next_packet, read_packet_header, write_next_packet, write_packet_header,
}
use gopar.Par2.Decoder.Locations.{make_checksum_shard_location_map, put, put_infos, put_pairs}
use gopar.Par2.Decoder.Load.{
  empty_infos, fill_file_integrity_infos, fill_files, fill_read, load_file_data,
}
use gopar.Par2.Decoder.Parity.{
  check_parity_file, extend_shards, load_parity_data, load_parity_file, load_parity_files,
  put_files, put_recovery, put_shard, same_ids, take_parity_file,
}
use gopar.Par2.RecoveryPacket.{read_recovery_packet, write_recovery_packet}

abbrev file_id : Bytes
file_id = compute_file_id digest (replicate 16 2) 8 name

abbrev par2_file : List (ℕ × Bytes) → File
par2_file recovery_packets = record {
  client_id = name;
  main_packet =
      some (record { slice_byte_count = 4; recovery_set = file_id ∷ []; non_recovery_set = [] });
  file_description_packets =
      (
        file_id,
        record {
          hash = replicate 16 1;
          sixteen_k_hash = replicate 16 2;
          byte_count = 8;
          filename = name;
        },
      )
      ∷ [];
  ifsc_packets = (file_id, pair ∷ pair ∷ []) ∷ [];
  recovery_packets = recovery_packets;
  unknown_packets = [];
}

abbrev bytes_of : Result Error (Bytes × Bytes) → Bytes
bytes_of (ok (set_id, file_bytes)) = file_bytes
bytes_of (err e) = []

-- /a.par2, and the volume /a.v.par2 with one parity shard.
abbrev par_file : Bytes
par_file = b'/' ∷ b'a' ∷ b'.' ∷ b'p' ∷ b'a' ∷ b'r' ∷ b'2' ∷ []

abbrev index_only : MemFs
index_only = record {
  working_dir = b'/' ∷ [];
  file_data = (par_file, bytes_of (write_file digest (par2_file []))) ∷ [];
}

abbrev with_volume : MemFs
with_volume = record {
  working_dir = b'/' ∷ [];
  file_data =
      (par_file, bytes_of (write_file digest (par2_file [])))
      ∷ (
        b'/' ∷ b'a' ∷ b'.' ∷ b'v' ∷ b'.' ∷ b'p' ∷ b'a' ∷ b'r' ∷ b'2' ∷ [],
        bytes_of (write_file digest (par2_file ((0, replicate 4 9) ∷ []))),
      )
      ∷ [];
}

abbrev missing_shard : ShardIntegrityInfo
missing_shard = record { shard_data = none; locations = [] }

abbrev loaded : List (Option Bytes) → Decoder
loaded parity_shards = record {
  index_path = par_file;
  set_id = 4 ∷ 0 ∷ 0 ∷ 0 ∷ 0 ∷ 0 ∷ 0 ∷ 0 ∷ 1 ∷ 0 ∷ 0 ∷ 0 ∷ 2 ∷ 2 ∷ 2 ∷ 2 ∷ [];
  client_id = name;
  slice_byte_count = 4;
  recovery_set =
      record {
        file_id = replicate 16 2;
        filename = name;
        byte_count = 8;
        sixteen_k_hash = replicate 16 2;
        hash = replicate 16 1;
        checksum_pairs = pair ∷ pair ∷ [];
      }
      ∷ [];
  non_recovery_set = [];
  num_goroutines = 1;
  checksum_to_location =
      (
        84215045,
        (
          replicate 16 3,
          record { file_id = replicate 16 2; start = 4 }
              ∷ record { file_id = replicate 16 2; start = 0 }
              ∷ [],
        )
            ∷ [],
      )
      ∷ [];
  file_integrity_infos =
      record {
        file_id = replicate 16 2;
        missing = true;
        hash_mismatch = false;
        has_wrong_byte_count = false;
        shard_infos = missing_shard ∷ missing_shard ∷ [];
      }
      ∷ [];
  parity_shards = parity_shards;
}

-- The decoder that is loaded from the index file alone, and from both files.
loaded_both :
    (load_decoder digest field to_field value backwards tables mem_io 1 par_file 0 index_only
      ≡ ok (loaded []))
    × (load_decoder digest field to_field value backwards tables mem_io 1 par_file 0 with_volume
        ≡ ok (loaded (some (replicate 4 9) ∷ [])))
unfolding to_abs_path Memfs.read_file paths_of paths matches matching find_with_prefix_and_suffix
    has_slash find_ext path_ext path_base up_to_slash path_dir join_path is_abs split_path push_part
    push_parts join_reversed clean check_filename read_creator_packet write_creator_packet
    check_packet_header decode_packet_header encode_packet_header read_packet_header
    write_packet_header compute_packet_hash read_next_packet write_next_packet slice_is_sorted
    check_file_id_sets_sorted read_main_packet write_main_packet compute_file_id
    read_file_description_packet write_file_description_packet decode_checksum_pairs
    encode_checksum_pairs read_ifsc_packet write_ifsc_packet load_creator load_main
    load_file_description load_ifsc load_packet handle_packet read_packets finish_file read_file
    pad_packet_bytes sort_ints exponents write_described write_recovery write_unknown write_set
    write_file make_input_file_infos same_location has_location add_location new_decoder
    get_file_path put put_pairs put_infos make_checksum_shard_location_map fill_read
    fill_file_integrity_infos fill_files empty_infos load_file_data load_parity_files put_files
    load_parity_data check_extension or_default load_decoder read_recovery_packet
    write_recovery_packet load_recovery insert_sorted has_prefix has_suffix same_ids
    check_parity_file take_parity_file load_parity_file extend_shards put_shard put_recovery
    input_file_info_ids agrees
loaded_both = (refl, refl)

abbrev one_parity : Decoder
one_parity = loaded (some (replicate 4 9) ∷ [])

-- The numbers 2 and 4 are generators.
generators_from-two : (n : ℕ) → 2 ≤ length (generators_from tables (suc (suc (suc n))) 0)
unfolding generators_from is_generator_index
generators_from-two n = omega arith

two_generators : 2 ≤ length (generators tables)
unfolding generators
two_generators = generators_from-two 65533

one_parity_coder :
    (coder : Coder F) × (new_coder_and_shards field to_field value tables one_parity
      ≡ ok (coder, none ∷ none ∷ []))
unfolding new_coder_and_shards all_shards shards_of
one_parity_coder =
    let (coder, made, sizes, elements) =
      new_coder_par2_vandermonde-made tables full to_field 2 1 1 (omega arith) (omega arith)
        (omega arith) two_generators (omega arith) in
    (coder, rw (made, new_coder_and_shards) refl)

verify_not_possible :
    verify_exit_code digest field to_field value backwards tables mem_io 1 par_file 0 with_volume
    ≡ exit_repair_not_possible
unfolding verify_exit_code verify shard_counts repair_needed repair_possible process_repair_checker
    all_shards shards_of count_shards
verify_not_possible = rw (loaded_both.1, verify, verify_exit_code) refl

verify-repair_not_possible_example :
    (repair_exit_code digest field to_field value backwards tables mem_io 1 par_file true 0
        with_volume
      ≡ exit_repair_not_possible)
    × (repair_files digest field to_field value backwards tables mem_io 1 par_file true 0
          with_volume
        ≡ record { repaired_paths = []; error = some not_enough_parity_shards; disk = with_volume })
verify-repair_not_possible_example =
    verify-repair_not_possible digest field to_field value backwards tables mem_io 1 par_file true 0
      with_volume one_parity one_parity_coder.0 (none ∷ none ∷ []) loaded_both.1 one_parity_coder.1
      verify_not_possible

reconstructed_shards-not_enough_example :
    (reconstructed_shards field to_field value backwards tables one_parity true
      ≡ err not_enough_parity_shards)
    ↔ ((repair_needed (shard_counts one_parity) ≡ true)
        × (repair_possible (shard_counts one_parity) ≡ false))
reconstructed_shards-not_enough_example =
    reconstructed_shards-not_enough field to_field value backwards tables one_parity true
      one_parity_coder.0 (none ∷ none ∷ []) one_parity_coder.1
