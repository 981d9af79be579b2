-- ===== src/Par1/Volume.antt =====
-- par1/volume.go: volumes. The digest of crypto/md5 is a parameter. Entries that no memory could
-- hold, on which make panics, are read as others are.
use gopar.Common.{
  ℕ, zero, suc, ◌+◌, ◌%◌, ◌^◌, ◌<◌, ◌≡◌, refl, sym, ap, ◌∙◌, if◌then◌else◌, true, List, [], ◌∷◌,
  ◌++◌, length, drop, All, map, arith, drop-append, length-append,
}
use mathlib.Core.List.{append_assoc, append-nil}
use gopar.Common.Bytes.{
  Bytes, put_le, length-put_le, same_bytes, same_bytes_refl, Result, ok, ◌>>=◌, ◌>>◌, guard,
}
use gopar.Par1.Header
use gopar.Par1.Header.{
  Error, Header, expected_file_list_offset, read_header, write_header, length-write_header,
  read_header-write_header, invalid_control_hash,
}
use gopar.Par1.FileEntry.{
  FileEntry, saved_in_volume_set, read_file_entry, write_file_entry, with_entry_bytes,
}
use gopar.Par1.FileEntry.RoundTrip
use gopar.Par1.FileEntry.RoundTrip.{read_file_entry-write_file_entry}

pub record Volume : Type 0 where
  pub header : Header
  pub set_hash : Bytes
  pub entries : List FileEntry
  pub data_bytes : Bytes

abbrev pub control_hash_offset : ℕ
control_hash_offset = 0x20

-- The loop of readVolume over the entries, with what is left of the buffer.
unfoldable pub read_entries : ℕ → Bytes → Result Error (List FileEntry × Bytes)
read_entries zero buf = ok ([], buf)
read_entries (suc count) buf = do
  (entry, rest) ← read_file_entry buf
  (entries, left) ← read_entries count rest
  ok (entry ∷ entries, left)

-- The hashes of the entries that are saved in the volume set.
unfoldable pub set_hash_input : List FileEntry → Bytes
set_hash_input [] = []
set_hash_input (entry ∷ entries) =
    (if saved_in_volume_set (entry.header.status) then entry.header.hash else [])
    ++ set_hash_input entries

-- The loop of writeVolume over the entries.
unfoldable pub write_entries : List FileEntry → Bytes
write_entries [] = []
write_entries (entry ∷ entries) = write_file_entry entry ++ write_entries entries

-- The counts, offsets and sizes that writeVolume puts in the header.
unfoldable pub with_sizes : Volume → Header
with_sizes v =
    let list_bytes = length (write_entries v.entries) in
    record (v.header) {
      file_count = length v.entries;
      file_list_offset = expected_file_list_offset;
      file_list_bytes = list_bytes;
      data_offset = (expected_file_list_offset + list_bytes) % 2 ^ 64;
      data_bytes = length v.data_bytes;
    }

module _ (md5 : Bytes → Bytes) where
  unfoldable pub read_volume : Bytes → Result Error Volume
  read_volume volume_bytes = do
    (header, buf) ← read_header volume_bytes
    guard (same_bytes (md5 (drop control_hash_offset volume_bytes)) header.control_hash)
        invalid_control_hash
    (entries, data_bytes) ← read_entries header.file_count buf
    ok (record {
      header = header;
      set_hash = md5 (set_hash_input entries);
      entries = entries;
      data_bytes = data_bytes;
    })

  -- The header that is written, with the hash over what follows it.
  unfoldable pub written_header : Volume → Header
  written_header v =
      let rest_data = write_entries v.entries ++ v.data_bytes in
      let header = with_sizes v in
      record header {
        control_hash = md5 (drop control_hash_offset (write_header header) ++ rest_data);
      }

  unfoldable pub write_volume : Volume → Bytes
  write_volume v = write_header (written_header v) ++ (write_entries v.entries ++ v.data_bytes)

-- The header behind its control hash.
header_tail : Header → Bytes
header_tail h =
    h.set_hash
    ++ (put_le 8 h.volume_number
        ++ (put_le 8 h.file_count
            ++ (put_le 8 h.file_list_offset
                ++ (put_le 8 h.file_list_bytes
                    ++ (put_le 8 h.data_offset ++ put_le 8 h.data_bytes)))))

drop-write_header :
    (h : Header) (rest : Bytes)
    → length h.id ≡ 8
    → length h.control_hash ≡ 16
    → drop control_hash_offset (write_header h ++ rest) ≡ header_tail h ++ rest
unfolding write_header header_tail
drop-write_header h rest id_size control_size =
    let front = h.id ++ (put_le 8 h.version_number ++ h.control_hash) in
    let front_size : length front ≡ 32 =
      simp (length-append, length-put_le) (omega (arith, id_size, control_size)) in
    let parts : write_header h ++ rest ≡ front ++ (header_tail h ++ rest) = simp append_assoc in
    ap (drop 32) parts ∙ drop-append 32 front (header_tail h ++ rest) front_size

-- A volume that can be written and read: its header has the version and the arrays of one that is
-- read, its entries are valid, and its sizes fit.
pub record IsValid (v : Volume) : Type 0 where
  pub id_eq : v.header.id ≡ Header.expected_id
  pub version_eq : Header.version v.header.version_number ≡ Header.expected_version
  pub version_fits : v.header.version_number < 2 ^ 64
  pub control_size : length v.header.control_hash ≡ 16
  pub set_size : length v.header.set_hash ≡ 16
  pub volume_fits : v.header.volume_number < 2 ^ 64
  pub entries_valid : All RoundTrip.IsValid v.entries
  pub count_fits : length v.entries < 2 ^ 64
  pub list_fits : length (write_entries v.entries) < 2 ^ 64
  pub data_fits : length v.data_bytes < 2 ^ 64

read_entries-write_entries :
    (entries : List FileEntry) (rest : Bytes)
    → All RoundTrip.IsValid entries
    → read_entries (length entries) (write_entries entries ++ rest)
      ≡ ok (map with_entry_bytes entries, rest)
unfolding read_entries write_entries
read_entries-write_entries [] rest h = refl
read_entries-write_entries (e ∷ entries) rest h = rw (
  append_assoc (write_file_entry e) (write_entries entries) rest,
  read_file_entry-write_file_entry e (write_entries entries ++ rest) h.0,
  read_entries-write_entries entries rest h.1,
)

set_hash_input-map :
    (entries : List FileEntry)
    → set_hash_input (map with_entry_bytes entries) ≡ set_hash_input entries
unfolding set_hash_input
set_hash_input-map [] = refl
set_hash_input-map (e ∷ entries) =
    ap (λ t. (if saved_in_volume_set (e.header.status) then e.header.hash else []) ++ t)
      (set_hash_input-map entries)

module _ (md5 : Bytes → Bytes) (digest_size : (xs : Bytes) → length (md5 xs) ≡ 16) where
  written_header-IsValid : (v : Volume) → IsValid v → Header.IsValid (written_header md5 v)
  unfolding written_header with_sizes
  written_header-IsValid v h = record {
    id_eq = h.id_eq;
    version_eq = h.version_eq;
    version_fits = h.version_fits;
    control_size = digest_size _;
    set_size = h.set_size;
    volume_fits = h.volume_fits;
    count_fits = h.count_fits;
    offset_eq = refl;
    list_fits = h.list_fits;
    data_offset_fits = omega arith;
    data_fits = h.data_fits;
  }

  -- The control hash does not depend on the control hash that the header had before.
  hash-checked :
      (v : Volume)
      → IsValid v
      → same_bytes
          (md5 (
            drop 32
              (write_header (written_header md5 v) ++ (write_entries v.entries ++ v.data_bytes))))
          (written_header md5 v).control_hash
        ≡ true
  unfolding written_header with_sizes header_tail
  hash-checked v h =
      let rest = write_entries v.entries ++ v.data_bytes in
      let bare = with_sizes v in
      let id_size : length v.header.id ≡ 8 = ap length h.id_eq in
      let before : drop 32 (write_header bare) ≡ header_tail bare =
        ap (drop 32) (sym (append-nil (write_header bare)))
        ∙ drop-write_header bare [] id_size h.control_size
        ∙ append-nil (header_tail bare) in
      let same : drop 32 (write_header (written_header md5 v) ++ rest)
          ≡ drop 32 (write_header bare) ++ rest =
        drop-write_header (written_header md5 v) rest id_size (digest_size _)
        ∙ ap (λ t. t ++ rest) (sym before) in
      ap (λ t. same_bytes (md5 t) (md5 (drop 32 (write_header bare) ++ rest))) same
      ∙ same_bytes_refl (md5 (drop 32 (write_header bare) ++ rest))

  -- A valid volume that is written is read back with the header that writeVolume computes, the set
  -- hash of its entries, its entries with their lengths, and its data.
  pub read_volume-write_volume :
      (v : Volume)
      → IsValid v
      → read_volume md5 (write_volume md5 v)
        ≡ ok (record {
          header = written_header md5 v;
          set_hash = md5 (set_hash_input v.entries);
          entries = map with_entry_bytes v.entries;
          data_bytes = v.data_bytes;
        })
  unfolding read_volume write_volume
  read_volume-write_volume v h =
      let written = written_header md5 v in
      let rest = write_entries v.entries ++ v.data_bytes in
      let valid = written_header-IsValid v h in
      let count : written.file_count ≡ length v.entries =
        unfold written_header with_sizes in refl in
      let hashed : same_bytes (md5 (drop 32 (write_header written ++ rest))) written.control_hash
          ≡ true =
        hash-checked v h in
      rw (
        read_header-write_header written rest valid,
        hashed,
        count,
        read_entries-write_entries v.entries v.data_bytes h.entries_valid,
        set_hash_input-map v.entries,
      )
