-- ===== src/Par1/FileEntry/RoundTrip.antt =====
-- An entry that is written is read back with its length.
use gopar.Common.{
  ℕ, ◌+◌, ◌-◌, ◌*◌, ◌%◌, ◌/◌, ◌^◌, ◌<◌, ◌≤◌, ◌≡◌, inl, inr, refl, ap, ◌∙◌, ◌==◌, leb, ltb, ◌||◌,
  not, Bool-cases, true, false, List, [], ◌∷◌, ◌++◌, length, All, arith, take-append, drop-append,
  length-append,
}
use mathlib.Core.List.{append_assoc}
use mathlib.Core.Path.{ap₂}
use gopar.Common.Bytes.{Bytes, length-put_le, get_le-put_le, ok}
use gopar.Par1.FileEntry.{
  FileEntryHeader, FileEntry, is_surrogate, utf16_decode, utf16_encode, units, unit_bytes,
  decode_utf16_le_string, encode_utf16_le_string, encode_file_entry_header,
  decode_file_entry_header, read_file_entry, with_entry_bytes, write_file_entry,
}

-- A Unicode scalar value.
abbrev pub IsRune : ℕ → Type 0
IsRune r = (is_surrogate r ≡ false) × (r < 0x110000)

decode-single :
    (u : ℕ) (us : List ℕ) → is_surrogate u ≡ false → utf16_decode (u ∷ us) ≡ u ∷ utf16_decode us
unfolding utf16_decode
decode-single u [] h = rw h
decode-single u (v ∷ us) h = ground arith

decode-pair :
    (r : ℕ) (us : List ℕ)
    → 0x10000 ≤ r
    → r < 0x110000
    → utf16_decode ((0xd800 + (r - 0x10000) / 2 ^ 10) ∷ ((0xdc00 + (r - 0x10000) % 2 ^ 10) ∷ us))
      ≡ r ∷ utf16_decode us
unfolding utf16_decode
decode-pair r us low high = ground arith

utf16_decode-utf16_encode : (rs : List ℕ) → All IsRune rs → utf16_decode (utf16_encode rs) ≡ rs
unfolding utf16_encode
utf16_decode-utf16_encode [] h = unfold utf16_decode in refl
utf16_decode-utf16_encode (r ∷ rs) h =
    let rest = utf16_decode-utf16_encode rs h.1 in
    elim (Bool-cases (ltb r 0x10000)) [
      | inl t ↦ rw (t, h.0.0) (decode-single r (utf16_encode rs) h.0.0 ∙ ap (λ t. r ∷ t) rest)
      | inr t ↦
          let valid : ltb r 0x110000 ≡ true = ground arith in
          rw (t, valid)
            (decode-pair r (utf16_encode rs) (ground arith) h.0.1 ∙ ap (λ t. r ∷ t) rest)
    ]

utf16_encode-units : (rs : List ℕ) → All (λ u. u < 2 ^ 16) (utf16_encode rs)
unfolding utf16_encode
utf16_encode-units [] = tt
utf16_encode-units (r ∷ rs) = ground (arith, utf16_encode-units rs)

length-utf16_encode : (r : ℕ) (rs : List ℕ) → 0 < length (utf16_encode (r ∷ rs))
unfolding utf16_encode
length-utf16_encode r rs = ground arith

units-unit_bytes : (us : List ℕ) → All (λ u. u < 2 ^ 16) us → units (unit_bytes us) ≡ us
unfolding units unit_bytes
units-unit_bytes [] h = refl
units-unit_bytes (u ∷ us) h = ap₂ ◌∷◌ (omega (arith, h)) (units-unit_bytes us h.1)

length-unit_bytes : (us : List ℕ) → length (unit_bytes us) ≡ length us * 2
unfolding unit_bytes
length-unit_bytes [] = omega arith
length-unit_bytes (u ∷ us) = omega (arith, length-unit_bytes us)

-- A name of scalar values comes back from its UTF-16 bytes.
pub decode-encode :
    (s : List ℕ) → All IsRune s → decode_utf16_le_string (encode_utf16_le_string s) ≡ s
unfolding decode_utf16_le_string encode_utf16_le_string
decode-encode s h =
    ap utf16_decode (units-unit_bytes (utf16_encode s) (utf16_encode-units s))
    ∙ utf16_decode-utf16_encode s h

-- An entry with its arrays and uint64s, and a name of scalar values that is not empty.
pub record IsValid (e : FileEntry) : Type 0 where
  pub status_fits : e.header.status < 2 ^ 64
  pub bytes_fit : e.header.file_bytes < 2 ^ 64
  pub hash_size : length e.header.hash ≡ 16
  pub sixteen_k_hash_size : length e.header.sixteen_k_hash ≡ 16
  pub runes : All IsRune e.filename
  pub some_runes : 0 < length e.filename
  pub name_fits : length (encode_utf16_le_string e.filename) < 2 ^ 62

name_size :
    (s : List ℕ)
    → 0 < length s
    → (length (encode_utf16_le_string s) % 2 ≡ 0) × (0 < length (encode_utf16_le_string s))
unfolding encode_utf16_le_string
name_size [] h = absurd (omega arith)
name_size (r ∷ rs) h = (
  omega (arith, length-unit_bytes (utf16_encode (r ∷ rs))),
  omega (arith, length-unit_bytes (utf16_encode (r ∷ rs)), length-utf16_encode r rs),
)

decode_header-encode_header :
    (h : FileEntryHeader) (rest : Bytes)
    → h.entry_bytes < 2 ^ 64
    → h.status < 2 ^ 64
    → h.file_bytes < 2 ^ 64
    → length h.hash ≡ 16
    → length h.sixteen_k_hash ≡ 16
    → (decode_file_entry_header (encode_file_entry_header h ++ rest) ≡ h)
      × (length (encode_file_entry_header h) ≡ 56)
unfolding decode_file_entry_header encode_file_entry_header
decode_header-encode_header h rest fits1 fits2 fits3 size1 size2 = (
  simp (
    append_assoc,
    get_le-put_le 8 h.entry_bytes fits1,
    get_le-put_le 8 h.status fits2,
    get_le-put_le 8 h.file_bytes fits3,
    take-append 16 h.hash _ size1,
    drop-append 16 h.hash _ size1,
    take-append 16 h.sixteen_k_hash rest size2,
  ),
  simp (length-append, length-put_le) (omega (arith, size1, size2)),
)

-- A valid entry that is written is read back with the length of its bytes, whatever follows it.
pub read_file_entry-write_file_entry :
    (e : FileEntry) (rest : Bytes)
    → IsValid e
    → read_file_entry (write_file_entry e ++ rest) ≡ ok (with_entry_bytes e, rest)
unfolding read_file_entry write_file_entry
read_file_entry-write_file_entry e rest v =
    let name = encode_utf16_le_string e.filename in
    let h = (with_entry_bytes e).header in
    let (even, some_name) = name_size e.filename v.some_runes in
    let tail = name ++ rest in
    let (decoded, size) =
      decode_header-encode_header h tail (omega (arith, v)) v.status_fits v.bytes_fit v.hash_size
        v.sixteen_k_hash_size in
    let bracketed : (encode_file_entry_header h ++ name) ++ rest
        ≡ encode_file_entry_header h ++ tail =
      append_assoc (encode_file_entry_header h) name rest in
    let whole : length (encode_file_entry_header h ++ tail) ≡ 56 + length tail =
      length-append (encode_file_entry_header h) tail ∙ ap (λ (n : ℕ). n + length tail) size in
    let not_empty : (not (length (encode_file_entry_header h ++ tail) == 0)) ≡ true =
      ground arith in
    let long : leb 56 (length (encode_file_entry_header h ++ tail)) ≡ true = ground arith in
    let count : (56 + length name + (2 ^ 64 - 56)) % 2 ^ 64 ≡ length name = omega (arith, v) in
    let accepted : (not (length name == 0 || not (length name % 2 == 0))) ≡ true = ground arith in
    let there : leb (length name) (length tail) ≡ true = ground (arith, length-append name rest) in
    rw (
      bracketed,
      not_empty,
      long,
      decoded,
      drop-append 56 (encode_file_entry_header h) tail size,
      count,
      accepted,
      there,
      take-append (length name) name rest refl,
      drop-append (length name) name rest refl,
      decode-encode e.filename v.runes,
    )
