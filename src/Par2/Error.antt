-- ===== src/Par2/Error.antt =====
-- The errors of par2, one for each message. `not_exist` is os.ErrNotExist, `io_error` any other error
-- of the file system, `panic` a run-time panic, and `out_of_fuel` a loop that has not ended.
pub data Error : Type 0 where
  eof unexpected_eof unexpected_magic invalid_length could_not_read_body hash_mismatch : Error
  invalid_ascii_character : Error
  recovery_set_not_sorted non_recovery_set_not_sorted invalid_slice_size empty_recovery_set : Error
  invalid_size not_enough_file_ids invalid_slice_byte_count recovery_set_too_big : Error
  absolute_path outside_directory file_id_mismatch empty_file file_too_big : Error
  invalid_byte_count no_checksum_pairs : Error
  invalid_recovery_byte_count exponent_out_of_range : Error
  duplicate_exponent no_packets_found no_creator_packet : Error
  empty_client_id no_main_packet no_file_description no_checksums : Error
  not_exist io_error : Error
  recovery_packets_in_index slice_byte_count_mismatch recovery_set_mismatch : Error
  non_recovery_set_mismatch no_file_integrity_info no_parity_shards : Error
  too_many_data_shards too_many_parity_shards not_enough_parity_shards singular_matrix : Error
  repair_failed sixteen_k_hash_mismatch data_hash_mismatch wrong_extension : Error
  no_file_paths base_path_not_absolute file_path_not_absolute outside_base_path : Error
  out_of_fuel panic : Error
