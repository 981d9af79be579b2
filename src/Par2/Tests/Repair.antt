-- ===== src/Par2/Tests/Repair.antt =====
-- Repair of one file, in a file system in memory.
use gopar.Common.{Option, ◌≡◌, ◌↔◌, refl, true, false, none, some, List, [], ◌∷◌, arith}
use gopar.Common.Bytes.{Bytes, put_le, get_le, Result, ok, err}
use gopar.Gf2p16.Slice.{words}
use gopar.Gf2p16.T.{T}
use gopar.Gf2p16.Element.{gf}
use gopar.Rsec16.ParityMatrix.{number}
use gopar.Rsec16.ParityMatrix.Vandermonde.{new_coder_par2_vandermonde-made}
use gopar.Rsec16.Reconstruct.{reconstruct_data, missing_rows}
use gopar.Rsec16.Tests.{backwards}
use gopar.Rsec16.Tests.Coders.{tables, full, field, F, to_field, some_generators}
use gopar.Memfs
use gopar.Memfs.{MemFs, to_abs_path}
use gopar.Par2.Error.{Error, not_exist, panic}
use gopar.Par2.FileIo.{FileIo}
use gopar.Par2.DataFile.{sixteen_k_hash}
use gopar.Par2.Decoder.{
  all_shards_ok, shard_ok, has_location, same_location, InputFileInfo, Decoder, all_shards,
  shards_of, file_ok, get_file_path,
}
use gopar.Par2.Filename.{is_abs, clean, split_path, push_part, push_parts, join_reversed, or_dot}
use gopar.Par2.Paths.{has_slash, path_dir, up_to_slash, join_path}
use gopar.Par2.Decoder.Repair.{
  new_coder_and_shards, to_elements, to_bytes, reconstructed_shards, new_shard_infos,
  fill_reconstructed, repaired_data, write_repaired, write_all, repair,
}
use gopar.Par2.Decoder.Repair.Whole.{AreWhole, repair-AreWhole}
use gopar.Par2.Decoder.Repair.Restored.{
  Restored, broken_paths, repair-Restored, repair-broken_paths,
}
use gopar.Par2.Tests.{digest, name}

abbrev to_result : {A : Type 0} → Result Memfs.Error A → Result Error A
to_result (ok x) = ok x
to_result (err Memfs.not_exist) = err not_exist
to_result (err Memfs.panicked) = err panic

abbrev to_written : MemFs → Result Memfs.Error MemFs → Option Error × MemFs
to_written fs (ok fs') = (none, fs')
to_written fs (err Memfs.not_exist) = (some not_exist, fs)
to_written fs (err Memfs.panicked) = (some panic, fs)

abbrev pub mem_io : FileIo
mem_io = record {
  Disk = MemFs;
  read_file = λ fs path. to_result (Memfs.read_file fs path);
  find_with_prefix_and_suffix =
      λ fs prefix suffix. to_result (Memfs.find_with_prefix_and_suffix fs prefix suffix);
  write_file = λ fs path data_bytes. to_written fs (Memfs.write_file fs path data_bytes);
}

abbrev pub value : F → T
unfolding gf
value x = x.0

abbrev four_bytes : Bytes
four_bytes = 1 ∷ 2 ∷ 3 ∷ 4 ∷ []

abbrev info : InputFileInfo
info = record {
  file_id = 7 ∷ [];
  filename = name;
  byte_count = 4;
  sixteen_k_hash = sixteen_k_hash digest four_bytes;
  hash = digest four_bytes;
  checksum_pairs = [];
}

-- The slice was found elsewhere, and the file itself is missing.
abbrev broken : Decoder
broken = record {
  index_path = 47 ∷ 97 ∷ [];
  set_id = [];
  client_id = [];
  slice_byte_count = 4;
  recovery_set = info ∷ [];
  non_recovery_set = [];
  num_goroutines = 1;
  checksum_to_location = [];
  file_integrity_infos =
      record {
        file_id = 7 ∷ [];
        missing = true;
        hash_mismatch = false;
        has_wrong_byte_count = false;
        shard_infos = record { shard_data = some four_bytes; locations = [] } ∷ [];
      }
      ∷ [];
  parity_shards = some four_bytes ∷ [];
}

abbrev empty_disk : MemFs
empty_disk = record { working_dir = 47 ∷ []; file_data = [] }

repair-Restored_example :
    let r = repair digest field to_field value backwards tables mem_io broken false empty_disk in
    Restored digest mem_io broken (info ∷ []) empty_disk r.repaired_paths r.disk
repair-Restored_example =
    repair-Restored digest field to_field value backwards tables mem_io broken false empty_disk

reconstructed_lem :
    reconstructed_shards field to_field value backwards tables broken false ≡ ok (four_bytes ∷ [])
unfolding reconstructed_shards new_coder_and_shards all_shards shards_of reconstruct_data
    missing_rows to_elements to_bytes words put_le to_field number gf
reconstructed_lem =
    let (coder, made, sizes, elements) =
      new_coder_par2_vandermonde-made tables full to_field 1 1 1 (omega arith) (omega arith)
        (omega arith) some_generators (omega arith) in
    rw (made, reconstructed_shards, new_coder_and_shards) refl

no_error :
    (repair digest field to_field value backwards tables mem_io broken false empty_disk).error
    ≡ none
unfolding repair write_all write_repaired repaired_data fill_reconstructed file_ok new_shard_infos
    sixteen_k_hash put_le get_le get_file_path path_dir up_to_slash join_path Memfs.write_file
    to_abs_path is_abs clean split_path push_part push_parts join_reversed or_dot has_slash
no_error = rw (reconstructed_lem, repair) refl

repair-broken_paths_example :
    (shards : List Bytes) × (reconstructed_shards field to_field value backwards tables broken false
      ≡ ok shards)
    × ((repair digest field to_field value backwards tables mem_io broken false
          empty_disk).repaired_paths
        ≡ broken_paths digest mem_io broken 4 (info ∷ []) broken.file_integrity_infos)
repair-broken_paths_example =
    repair-broken_paths digest field to_field value backwards tables mem_io broken false empty_disk
      no_error

-- The same set with the file in its place.
abbrev unbroken : Decoder
unbroken = record broken {
  file_integrity_infos =
      record {
        file_id = 7 ∷ [];
        missing = false;
        hash_mismatch = false;
        has_wrong_byte_count = false;
        shard_infos =
            record {
              shard_data = some four_bytes;
              locations = record { file_id = 7 ∷ []; start = 0 } ∷ [];
            }
            ∷ [];
      }
      ∷ [];
}

unbroken-AreWhole : AreWhole 4 unbroken.file_integrity_infos
unfolding file_ok all_shards_ok shard_ok has_location same_location
unbroken-AreWhole = (refl, tt)

repair-AreWhole_example :
    let r = repair digest field to_field value backwards tables mem_io unbroken true empty_disk in
    (r.repaired_paths ≡ [])
    × ((r.disk ≡ empty_disk)
        × ((r.error ≡ none) ↔ (
            (shards : List Bytes) × (reconstructed_shards field to_field value backwards tables
                unbroken true
              ≡ ok shards))))
repair-AreWhole_example =
    repair-AreWhole digest field to_field value backwards tables mem_io unbroken true empty_disk
      unbroken-AreWhole (omega arith)
