-- ===== src/Par2/Encoder.antt =====
-- par2/encoder.go: the encoder, from the files to the index file and the recovery files. The calls
-- of the delegate are left out.
pub mod Volumes
use gopar.Common.{
  ℕ, zero, suc, ◌+◌, ◌-◌, ◌*◌, ◌%◌, ◌^◌, ◌==◌, ◌||◌, ltb, leb, not, if◌then◌else◌, Bool, true,
  false, Option, none, some, List, [], ◌∷◌, ◌++◌, length, get_or, map, lookup, insert, replicate,
}
use mathlib.Core.Option
use gopar.Common.Bytes.{Bytes, same_bytes, Result, ok, err, ◌>>=◌, ◌>>◌, guard}
use gopar.Gf2p16.T.{T, Tables}
use gopar.Gf2p16.Algebra.{Field}
use gopar.Rsec16.Coder.{Coder, generate_parity}
use gopar.Rsec16.ParityMatrix.{new_coder_par2_vandermonde}
use gopar.Par2.Error.{
  Error, panic, out_of_fuel, base_path_not_absolute, file_path_not_absolute, outside_base_path,
  invalid_slice_byte_count,
}
use gopar.Par2.FileIo.{FileIo}
use gopar.Par2.Filename.{is_abs, starts_with_dot}
use gopar.Par2.Paths.{path_base, join_path, rel_path, two_digits}
use gopar.Par2.MainPacket.{MainPacket, file_id_less}
use gopar.Par2.FileDescriptionPacket.{FileDescriptionPacket}
use gopar.Par2.IfscPacket.{ChecksumPair}
use gopar.Par2.DataFile.{DataFileInfo, compute_data_file_info}
use gopar.Par2.File.{File}
use gopar.Par2.File.Write.{find, write_file}
use gopar.Par2.Decoder.{finished}
use gopar.Par2.Decoder.Repair.{coder_result, to_elements, to_bytes}

pub record Encoder : Type 0 where
  pub base_path : Bytes
  pub rel_file_paths : List Bytes
  pub slice_byte_count : ℕ
  pub parity_shard_count : ℕ
  pub num_goroutines : ℕ
  pub recovery_set : List Bytes
  pub recovery_set_infos : List (Bytes × DataFileInfo)
  pub parity_shards : List Bytes

-- The loop over the file paths of newEncoder.
unfoldable pub rel_file_paths_of : Bytes → List Bytes → Result Error (List Bytes)
rel_file_paths_of base_path [] = ok []
rel_file_paths_of base_path (path ∷ paths) = do
  guard (is_abs path) file_path_not_absolute
  guard (not (starts_with_dot (rel_path base_path path))) outside_base_path
  rel_paths ← rel_file_paths_of base_path paths
  ok (rel_path base_path path ∷ rel_paths)

unfoldable pub new_encoder : Bytes → List Bytes → ℕ → ℕ → ℕ → Result Error Encoder
new_encoder base_path file_paths slice_byte_count parity_shard_count num_goroutines = do
  guard (is_abs base_path) base_path_not_absolute
  rel_file_paths ← rel_file_paths_of base_path file_paths
  guard (not (slice_byte_count == 0 || not (slice_byte_count % 4 == 0))) invalid_slice_byte_count
  ok (record {
    base_path = base_path;
    rel_file_paths = rel_file_paths;
    slice_byte_count = slice_byte_count;
    parity_shard_count = parity_shard_count;
    num_goroutines = num_goroutines;
    recovery_set = [];
    recovery_set_infos = [];
    parity_shards = [];
  })

-- sort.Slice with fileIDLess.
unfoldable pub insert_id : Bytes → List Bytes → List Bytes
insert_id id [] = id ∷ []
insert_id id (id' ∷ ids) = if file_id_less id' id then id' ∷ insert_id id ids else id ∷ (id' ∷ ids)

unfoldable pub sort_ids : List Bytes → List Bytes
sort_ids [] = []
sort_ids (id ∷ ids) = insert_id id (sort_ids ids)

-- The infos by their file IDs; a later file replaces an earlier one of the same ID.
unfoldable pub infos_by_id :
    List DataFileInfo → List (Bytes × DataFileInfo) → List (Bytes × DataFileInfo)
infos_by_id [] m = m
infos_by_id (info ∷ infos) m = infos_by_id infos (insert same_bytes info.file_id info m)

unfoldable pub ids_of : List DataFileInfo → List Bytes
ids_of [] = []
ids_of (info ∷ infos) = info.file_id ∷ ids_of infos

abbrev pub shards_of_info : Option DataFileInfo → List Bytes
shards_of_info none = []
shards_of_info (some info) = info.data_shards

unfoldable pub data_shards_of : List Bytes → List (Bytes × DataFileInfo) → List Bytes
data_shards_of [] infos = []
data_shards_of (id ∷ ids) infos =
    shards_of_info (lookup same_bytes id infos) ++ data_shards_of ids infos

module _ (md5 : Bytes → Bytes) (io : FileIo) (disk : io.Disk) where
  unfoldable pub load_files : Encoder → List Bytes → Result Error (List DataFileInfo)
  load_files e [] = ok []
  load_files e (rel_path ∷ rel_paths) = do
    data_bytes ← io.read_file disk (join_path e.base_path rel_path)
    info ← find (compute_data_file_info md5 e.slice_byte_count rel_path data_bytes) out_of_fuel
    infos ← load_files e rel_paths
    ok (info ∷ infos)

  unfoldable pub load_file_data : Encoder → Result Error Encoder
  load_file_data e = do
    infos ← load_files e e.rel_file_paths
    ok (record e {
      recovery_set = sort_ids (ids_of infos);
      recovery_set_infos = infos_by_id infos [];
    })

module _ (K : Field) (element : T → Field.F K) (value : Field.F K → T) (schedule : ℕ → List ℕ)
    (t : Tables) where
  unfoldable pub compute_parity_data : Encoder → Result Error Encoder
  compute_parity_data e = do
    let data_shards = data_shards_of e.recovery_set e.recovery_set_infos
    coder ← coder_result (
        new_coder_par2_vandermonde t element (length data_shards) e.parity_shard_count
          e.num_goroutines)
    parity ←
        find (generate_parity K schedule coder (map (to_elements K element value) data_shards))
          panic
    ok (record e { parity_shards = map (to_bytes K element value) parity })

abbrev pub client_id : Bytes
client_id = b'g' ∷ b'o' ∷ b'p' ∷ b'a' ∷ b'r' ∷ []

abbrev pub par2_extension : Bytes
par2_extension = b'.' ∷ b'p' ∷ b'a' ∷ b'r' ∷ b'2' ∷ []

unfoldable pub descriptions_of : List (Bytes × DataFileInfo) → List (Bytes × FileDescriptionPacket)
descriptions_of [] = []
descriptions_of ((id, info) ∷ infos) = (id, info.file_description_packet) ∷ descriptions_of infos

unfoldable pub checksums_of : List (Bytes × DataFileInfo) → List (Bytes × List ChecksumPair)
checksums_of [] = []
checksums_of ((id, info) ∷ infos) = (id, info.checksum_pairs) ∷ checksums_of infos

-- The file of Write, with no recovery packets.
unfoldable pub index_file : Encoder → File
index_file e = record {
  client_id = client_id;
  main_packet = some (record {
    slice_byte_count = e.slice_byte_count;
    recovery_set = e.recovery_set;
    non_recovery_set = [];
  });
  file_description_packets = descriptions_of e.recovery_set_infos;
  ifsc_packets = checksums_of e.recovery_set_infos;
  recovery_packets = [];
  unknown_packets = [];
}

-- The recovery packets of the exponents from `i` on, `count` of them; an exponent is a uint16.
unfoldable pub recovery_packets_from : Encoder → ℕ → ℕ → List (ℕ × Bytes) → List (ℕ × Bytes)
recovery_packets_from e zero i packets = packets
recovery_packets_from e (suc count) i packets =
    recovery_packets_from e count (i + 1)
      (insert ◌==◌ (i % 2 ^ 16) (get_or e.parity_shards i []) packets)

unfoldable pub volume_filename : Bytes → ℕ → ℕ → Bytes
volume_filename base i volume_count =
    base
    ++ ((b'.' ∷ b'v' ∷ b'o' ∷ b'l' ∷ [])
        ++ (two_digits i ++ ((b'+' ∷ []) ++ (two_digits volume_count ++ par2_extension))))

-- The count of a volume, which does not go past the last shard.
unfoldable pub next_count : ℕ → ℕ → ℕ → ℕ
next_count total i volume_count = if ltb total (i + volume_count) then total - i else volume_count

-- The volumes of Write's loop, by the first exponent and the count of each, from `i` on. They are
-- none where the fuel ends before the loop does.
unfoldable pub volumes : ℕ → ℕ → ℕ → ℕ → Option (List (ℕ × ℕ))
volumes zero total i volume_count = none
volumes (suc fuel) total i volume_count =
    let count = next_count total i volume_count in
    let rest = volumes fuel total (i + count) (count * 2) in
    if ltb i total then Option.map (λ vs. (i, count) ∷ vs) rest else some []

-- The file of a volume. A parity shard that is not there panics.
unfoldable pub volume_file : Encoder → ℕ → ℕ → Result Error File
volume_file e i volume_count = do
  guard (leb (i + volume_count) (length e.parity_shards)) panic
  ok (record (index_file e) { recovery_packets = recovery_packets_from e volume_count i [] })

module _ (md5 : Bytes → Bytes) (io : FileIo) where
  -- The file of a volume as its bytes.
  unfoldable pub volume_bytes : Encoder → ℕ → ℕ → Result Error Bytes
  volume_bytes e i volume_count = do
    file ← volume_file e i volume_count
    (set_id, recovery_bytes) ← write_file md5 file
    ok recovery_bytes

  unfoldable pub write_volumes : Encoder → Bytes → List (ℕ × ℕ) → io.Disk → Option Error × io.Disk
  write_volumes e base [] disk = (none, disk)
  write_volumes e base ((i, volume_count) ∷ vs) disk = elim (volume_bytes e i volume_count) [
    | err error ↦ (some error, disk)
    | ok recovery_bytes ↦
        let (error, disk') =
          io.write_file disk (volume_filename base i volume_count) recovery_bytes in
        let rest = write_volumes e base vs disk' in
        elim error [ some e' ↦ (some e', disk') | none ↦ rest ]
  ]

  unfoldable pub write : Encoder → Bytes → io.Disk → Option Error × io.Disk
  write e index_path disk =
      let base = path_base index_path in
      elim (write_file md5 (index_file e)) [
        | err error ↦ (some error, disk)
        | ok (set_id, index_bytes) ↦
            let (error, disk') = io.write_file disk (base ++ par2_extension) index_bytes in
            elim error [
              | some e' ↦ (some e', disk')
              | none ↦ elim (volumes (suc e.parity_shard_count) e.parity_shard_count 0 1) [
                | none ↦ (some out_of_fuel, disk')
                | some vs ↦ write_volumes e base vs disk'
              ]
            ]
      ]
