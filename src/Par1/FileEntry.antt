-- ===== src/Par1/FileEntry.antt =====
-- par1/file_entry.go: the entry of a file. A filename is its runes, as utf8.EncodeRune and the
-- range over a string give them back; utf16.Encode and utf16.Decode are those of the standard
-- library.
pub mod RoundTrip
use gopar.Common.{
  ℕ, zero, suc, ◌+◌, ◌-◌, ◌*◌, ◌%◌, ◌/◌, ◌^◌, ◌<◌, ◌≤◌, ◌≡◌, ◌⊎◌, inl, inr, refl, sym, ap, ◌∙◌,
  ◌==◌, leb, ltb, ◌||◌, ◌&&◌, if◌then◌else◌, not, Bool, true, false, List, [], ◌∷◌, ◌++◌, length,
  take, drop, All, arith, take-append, drop-append, length-append,
}
use mathlib.Core.List.{append_assoc}
use gopar.Common.Bytes.{
  Bytes, put_le, get_le, length-put_le, get_le-put_le, Result, ok, err, ◌>>=◌, ◌>>◌, guard,
}
use gopar.Par1.Header.{Error, eof, unexpected_eof, invalid_entry_byte_count, byte_count_mismatch}

-- Bit 0 of the status.
unfoldable pub saved_in_volume_set : ℕ → Bool
saved_in_volume_set status = status % 2 == 1

unfoldable pub set_saved_in_volume_set : ℕ → Bool → ℕ
set_saved_in_volume_set status saved =
    if saved then (if status % 2 == 1 then status else status + 1) else 0

unfoldable pub checked_successfully : ℕ → Bool
checked_successfully status = status / 2 % 2 == 1

pub record FileEntryHeader : Type 0 where
  pub entry_bytes : ℕ
  pub status : ℕ
  pub file_bytes : ℕ
  pub hash : Bytes
  pub sixteen_k_hash : Bytes

pub record FileEntry : Type 0 where
  pub header : FileEntryHeader
  pub filename : List ℕ

abbrev pub size_of_file_entry_header : ℕ
size_of_file_entry_header = 56

abbrev pub is_surrogate : ℕ → Bool
is_surrogate u = leb 0xd800 u && ltb u 0xe000

abbrev pub or_replacement : ℕ → ℕ
or_replacement u = if is_surrogate u then 0xfffd else u

unfoldable pub utf16_decode : List ℕ → List ℕ
utf16_decode [] = []
utf16_decode (u ∷ []) = or_replacement u ∷ []
utf16_decode (u ∷ (v ∷ us)) =
    let pair = ((u - 0xd800) * 2 ^ 10 + (v - 0xdc00) + 0x10000) ∷ utf16_decode us in
    let single = or_replacement u ∷ utf16_decode (v ∷ us) in
    if (leb 0xd800 u && ltb u 0xdc00) && (leb 0xdc00 v && ltb v 0xe000) then pair else single

unfoldable pub utf16_encode : List ℕ → List ℕ
utf16_encode [] = []
utf16_encode (r ∷ rs) =
    if ltb r 0x10000
    then or_replacement r ∷ utf16_encode rs
    else if ltb r 0x110000
    then (0xd800 + (r - 0x10000) / 2 ^ 10) ∷ ((0xdc00 + (r - 0x10000) % 2 ^ 10) ∷ utf16_encode rs)
    else 0xfffd ∷ utf16_encode rs

-- The 16-bit numbers of pairs of bytes, the low byte first; a last byte alone is left out.
unfoldable pub units : Bytes → List ℕ
units [] = []
units (a ∷ []) = []
units (a ∷ (b ∷ bs)) = (a + b * 2 ^ 8) ∷ units bs

unfoldable pub unit_bytes : List ℕ → Bytes
unit_bytes [] = []
unit_bytes (u ∷ us) = (u % 2 ^ 8) ∷ ((u / 2 ^ 8 % 2 ^ 8) ∷ unit_bytes us)

unfoldable pub decode_utf16_le_string : Bytes → List ℕ
decode_utf16_le_string bs = utf16_decode (units bs)

unfoldable pub encode_utf16_le_string : List ℕ → Bytes
encode_utf16_le_string s = unit_bytes (utf16_encode s)

-- binary.Write and binary.Read of an entry's header.
unfoldable pub encode_file_entry_header : FileEntryHeader → Bytes
encode_file_entry_header h =
    put_le 8 h.entry_bytes
    ++ (put_le 8 h.status ++ (put_le 8 h.file_bytes ++ (h.hash ++ h.sixteen_k_hash)))

unfoldable pub decode_file_entry_header : Bytes → FileEntryHeader
decode_file_entry_header bs =
    let bs1 = drop 8 bs in
    let bs2 = drop 8 bs1 in
    let bs3 = drop 8 bs2 in
    record {
      entry_bytes = get_le (take 8 bs);
      status = get_le (take 8 bs1);
      file_bytes = get_le (take 8 bs2);
      hash = take 16 bs3;
      sixteen_k_hash = take 16 (drop 16 bs3);
    }

-- The difference of uint64s wraps around.
unfoldable pub read_file_entry : Bytes → Result Error (FileEntry × Bytes)
read_file_entry buf = do
  guard (not (length buf == 0)) eof
  guard (leb 56 (length buf)) unexpected_eof
  let h = decode_file_entry_header buf
  let rest = drop 56 buf
  let n = (h.entry_bytes + (2 ^ 64 - size_of_file_entry_header)) % 2 ^ 64
  guard (not (n == 0 || not (n % 2 == 0))) invalid_entry_byte_count
  guard (leb n (length rest)) byte_count_mismatch
  ok (record { header = h; filename = decode_utf16_le_string (take n rest) }, drop n rest)

-- The entry with its length, as writeFileEntry writes it.
abbrev pub with_entry_bytes : FileEntry → FileEntry
with_entry_bytes entry = record entry {
  header = record (entry.header) {
    entry_bytes = size_of_file_entry_header + length (encode_utf16_le_string entry.filename);
  };
}

unfoldable pub write_file_entry : FileEntry → Bytes
write_file_entry entry =
    encode_file_entry_header (with_entry_bytes entry).header
    ++ encode_utf16_le_string entry.filename
