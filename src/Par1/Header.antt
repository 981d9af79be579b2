-- ===== src/Par1/Header.antt =====
-- par1/header.go: the header of a volume.
use gopar.Common.{
  ℕ, ◌+◌, ◌%◌, ◌^◌, ◌<◌, ◌≡◌, refl, ap, ◌∙◌, ◌==◌, leb, not, true, [], ◌∷◌, ◌++◌, length, take,
  drop, arith, take-append, drop-append, length-append,
}
use mathlib.Core.List.{append_assoc}
use gopar.Common.Bytes.{
  Bytes, put_le, get_le, length-put_le, get_le-put_le, same_bytes, Result, ok, ◌>>◌, guard,
}

-- The errors of par1, one for each message.
pub data Error : Type 0 where
  eof unexpected_eof unexpected_id unexpected_version unexpected_file_list_offset : Error
  invalid_entry_byte_count byte_count_mismatch invalid_control_hash : Error

pub record Header : Type 0 where
  pub id : Bytes
  pub version_number : ℕ
  pub control_hash : Bytes
  pub set_hash : Bytes
  pub volume_number : ℕ
  pub file_count : ℕ
  pub file_list_offset : ℕ
  pub file_list_bytes : ℕ
  pub data_offset : ℕ
  pub data_bytes : ℕ

abbrev pub expected_id : Bytes
expected_id = b'P' ∷ b'A' ∷ b'R' ∷ 0 ∷ 0 ∷ 0 ∷ 0 ∷ 0 ∷ []

abbrev pub expected_version : ℕ
expected_version = 0x00010000

abbrev pub expected_file_list_offset : ℕ
expected_file_list_offset = 0x60

-- The version is the low half of a version number.
abbrev pub version : ℕ → ℕ
version n = n % 2 ^ 32

-- binary.Write of a header, and binary.Read of its 96 bytes.
unfoldable pub write_header : Header → Bytes
write_header h =
    h.id
    ++ (put_le 8 h.version_number
        ++ (h.control_hash
            ++ (h.set_hash
                ++ (put_le 8 h.volume_number
                    ++ (put_le 8 h.file_count
                        ++ (put_le 8 h.file_list_offset
                            ++ (put_le 8 h.file_list_bytes
                                ++ (put_le 8 h.data_offset ++ put_le 8 h.data_bytes))))))))

unfoldable pub decode_header : Bytes → Header
decode_header bs =
    let bs1 = drop 8 bs in
    let bs2 = drop 8 bs1 in
    let bs3 = drop 16 bs2 in
    let bs4 = drop 16 bs3 in
    let bs5 = drop 8 bs4 in
    let bs6 = drop 8 bs5 in
    let bs7 = drop 8 bs6 in
    let bs8 = drop 8 bs7 in
    let bs9 = drop 8 bs8 in
    record {
      id = take 8 bs;
      version_number = get_le (take 8 bs1);
      control_hash = take 16 bs2;
      set_hash = take 16 bs3;
      volume_number = get_le (take 8 bs4);
      file_count = get_le (take 8 bs5);
      file_list_offset = get_le (take 8 bs6);
      file_list_bytes = get_le (take 8 bs7);
      data_offset = get_le (take 8 bs8);
      data_bytes = get_le (take 8 bs9);
    }

-- The header and what is left of the buffer.
unfoldable pub read_header : Bytes → Result Error (Header × Bytes)
read_header buf = do
  guard (not (length buf == 0)) eof
  guard (leb 96 (length buf)) unexpected_eof
  let h = decode_header buf
  guard (same_bytes h.id expected_id) unexpected_id
  guard (version h.version_number == expected_version) unexpected_version
  guard (h.file_list_offset == expected_file_list_offset) unexpected_file_list_offset
  ok (h, drop 96 buf)

-- A header with its arrays and uint64s, of the version that is read.
pub record IsValid (h : Header) : Type 0 where
  pub id_eq : h.id ≡ expected_id
  pub version_eq : version h.version_number ≡ expected_version
  pub version_fits : h.version_number < 2 ^ 64
  pub control_size : length h.control_hash ≡ 16
  pub set_size : length h.set_hash ≡ 16
  pub volume_fits : h.volume_number < 2 ^ 64
  pub count_fits : h.file_count < 2 ^ 64
  pub offset_eq : h.file_list_offset ≡ expected_file_list_offset
  pub list_fits : h.file_list_bytes < 2 ^ 64
  pub data_offset_fits : h.data_offset < 2 ^ 64
  pub data_fits : h.data_bytes < 2 ^ 64

pub length-write_header : (h : Header) → IsValid h → length (write_header h) ≡ 96
unfolding write_header
length-write_header h v =
    let id_size : length h.id ≡ 8 = ap length v.id_eq in
    simp (length-append, length-put_le) (omega (arith, v, id_size))

decode-write : (h : Header) (rest : Bytes) → IsValid h → decode_header (write_header h ++ rest) ≡ h
unfolding decode_header write_header
decode-write h rest v =
    let id_size : length h.id ≡ 8 = ap length v.id_eq in
    let offset_fits : h.file_list_offset < 2 ^ 64 = omega (arith, v.offset_eq) in
    simp (
      append_assoc,
      take-append 8 h.id _ id_size,
      drop-append 8 h.id _ id_size,
      take-append 8 (put_le 8 h.version_number) _ refl,
      drop-append 8 (put_le 8 h.version_number) _ refl,
      take-append 16 h.control_hash _ v.control_size,
      drop-append 16 h.control_hash _ v.control_size,
      take-append 16 h.set_hash _ v.set_size,
      drop-append 16 h.set_hash _ v.set_size,
      get_le-put_le 8 h.version_number v.version_fits,
      get_le-put_le 8 h.volume_number v.volume_fits,
      get_le-put_le 8 h.file_count v.count_fits,
      get_le-put_le 8 h.file_list_offset offset_fits,
      get_le-put_le 8 h.file_list_bytes v.list_fits,
      get_le-put_le 8 h.data_offset v.data_offset_fits,
      get_le-put_le 8 h.data_bytes v.data_fits,
    )

-- A valid header that is written is read back, whatever follows it.
pub read_header-write_header :
    (h : Header) (rest : Bytes) → IsValid h → read_header (write_header h ++ rest) ≡ ok (h, rest)
unfolding read_header
read_header-write_header h rest v =
    let size : length (write_header h ++ rest) ≡ 96 + length rest =
      length-append (write_header h) rest
      ∙ ap (λ (n : ℕ). n + length rest) (length-write_header h v) in
    let not_empty : (not (length (write_header h ++ rest) == 0)) ≡ true = ground arith in
    let long : leb 96 (length (write_header h ++ rest)) ≡ true = ground arith in
    let same_id : same_bytes h.id expected_id ≡ true =
      ap (λ bs. same_bytes bs expected_id) v.id_eq in
    let same_version : (version h.version_number == expected_version) ≡ true =
      ground (arith, v.version_eq) in
    let same_offset : (h.file_list_offset == expected_file_list_offset) ≡ true =
      ground (arith, v.offset_eq) in
    rw (
      not_empty,
      long,
      decode-write h rest v,
      same_id,
      same_version,
      same_offset,
      drop-append 96 (write_header h) rest (length-write_header h v),
    )
