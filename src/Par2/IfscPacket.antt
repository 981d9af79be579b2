-- ===== src/Par2/IfscPacket.antt =====
-- par2/ifsc_packet.go: the checksums of a file's slices.
use gopar.Common.{
  ℕ, suc, zero, ◌+◌, ◌*◌, ◌/◌, ◌%◌, ◌≡◌, refl, ap, ◌∙◌, ◌==◌, leb, not, true, List, [], ◌∷◌, ◌++◌,
  length, take, drop, All, arith, take-append, drop-append, length-append,
}
use gopar.Common.Bytes.{Bytes, Result, ok, ◌>>◌, guard}
use gopar.Par2.Error.{Error, eof, unexpected_eof, invalid_size, no_checksum_pairs}

pub record ChecksumPair : Type 0 where
  pub md5 : Bytes
  pub crc32 : Bytes

abbrev pub size_of_checksum_pair : ℕ
size_of_checksum_pair = 20

-- binary.Read and binary.Write of checksum pairs.
unfoldable pub decode_checksum_pairs : ℕ → Bytes → List ChecksumPair
decode_checksum_pairs zero bs = []
decode_checksum_pairs (suc n) bs =
    record { md5 = take 16 bs; crc32 = take 4 (drop 16 bs) }
    ∷ decode_checksum_pairs n (drop 4 (drop 16 bs))

unfoldable pub encode_checksum_pairs : List ChecksumPair → Bytes
encode_checksum_pairs [] = []
encode_checksum_pairs (p ∷ ps) = p.md5 ++ (p.crc32 ++ encode_checksum_pairs ps)

unfoldable pub read_ifsc_packet : Bytes → Result Error (Bytes × List ChecksumPair)
read_ifsc_packet body = do
  guard (not (length body == 0)) eof
  guard (leb 16 (length body)) unexpected_eof
  let buf = drop 16 body
  guard (not (length buf == 0)) invalid_size
  guard (length buf % size_of_checksum_pair == 0) invalid_size
  ok (take 16 body, decode_checksum_pairs (length buf / size_of_checksum_pair) buf)

unfoldable pub write_ifsc_packet : Bytes → List ChecksumPair → Result Error Bytes
write_ifsc_packet id checksum_pairs = do
  guard (not (length checksum_pairs == 0)) no_checksum_pairs
  ok (id ++ encode_checksum_pairs checksum_pairs)

abbrev pub HaveSizes : List ChecksumPair → Type 0
HaveSizes = All (λ p. (length p.md5 ≡ 16) × (length p.crc32 ≡ 4))

decode-encode :
    (ps : List ChecksumPair)
    → HaveSizes ps
    → decode_checksum_pairs (length ps) (encode_checksum_pairs ps) ≡ ps
unfolding decode_checksum_pairs encode_checksum_pairs
decode-encode [] h = refl
decode-encode (p ∷ ps) h =
    let tail = p.crc32 ++ encode_checksum_pairs ps in
    simp (
      take-append 16 p.md5 tail h.0.0,
      drop-append 16 p.md5 tail h.0.0,
      take-append 4 p.crc32 (encode_checksum_pairs ps) h.0.1,
      drop-append 4 p.crc32 (encode_checksum_pairs ps) h.0.1,
      decode-encode ps h.1,
    )

pub length-encode :
    (ps : List ChecksumPair) → HaveSizes ps → length (encode_checksum_pairs ps) ≡ length ps * 20
unfolding encode_checksum_pairs
length-encode [] h = omega arith
length-encode (p ∷ ps) h = simp (length-append) (omega (arith, h, length-encode ps h.1))

-- The checksums of a file, one pair and more of 16 and 4 bytes, are written without an error
-- behind the file's ID, and are read back with it.
pub read_ifsc_packet-write_ifsc_packet :
    (id : Bytes) (p : ChecksumPair) (ps : List ChecksumPair)
    → length id ≡ 16
    → HaveSizes (p ∷ ps)
    → (body : Bytes) × (write_ifsc_packet id (p ∷ ps) ≡ ok body)
      × (read_ifsc_packet body ≡ ok (id, p ∷ ps))
unfolding write_ifsc_packet read_ifsc_packet
read_ifsc_packet-write_ifsc_packet id p ps h s =
    let coded = encode_checksum_pairs (p ∷ ps) in
    let size : length coded ≡ length (p ∷ ps) * 20 = length-encode (p ∷ ps) s in
    let all : length (id ++ coded) ≡ 16 + length coded =
      length-append id coded ∙ ap (λ (n : ℕ). n + length coded) h in
    let written : (not (length (p ∷ ps) == 0)) ≡ true = ground arith in
    let whole : (not (length (id ++ coded) == 0)) ≡ true = ground arith in
    let long : leb 16 (length (id ++ coded)) ≡ true = ground arith in
    let some_pairs : (not (length coded == 0)) ≡ true = ground arith in
    let fit : (length coded % 20 == 0) ≡ true = ground arith in
    let count : length coded / 20 ≡ length (p ∷ ps) = omega arith in
    (
      id ++ coded,
      rw written,
      rw (
        whole,
        long,
        drop-append 16 id coded h,
        some_pairs,
        fit,
        count,
        take-append 16 id coded h,
        decode-encode (p ∷ ps) s,
      ),
    )
