-- ===== src/Par2/Packet/RoundTrip.antt =====
-- A packet that is written is read back, whatever follows it.
use gopar.Common.{
  ℕ, ◌+◌, ◌-◌, ◌%◌, ◌^◌, ◌<◌, ◌≡◌, refl, ap, ◌∙◌, ◌==◌, ltb, lt→ltb, ◌++◌, length, drop, true,
  false, arith, take-append, drop-append, length-append,
}
use mathlib.Core.List.{append_assoc}
use gopar.Common.Bytes.{Bytes, put_le, length-put_le, get_le-put_le, same_bytes_refl, ok}
use gopar.Par2.Packet.{
  PacketHeader, expected_magic, check_packet_header, decode_packet_header, encode_packet_header,
  read_packet_header, write_packet_header, compute_packet_hash, read_next_packet, write_next_packet,
}

-- The arrays of a header have their sizes, and the length is a uint64.
pub record HasSizes (h : PacketHeader) : Type 0 where
  pub magic_size : length h.magic ≡ 8
  pub hash_size : length h.hash ≡ 16
  pub set_size : length h.recovery_set_id ≡ 16
  pub type_size : length h.packet_type ≡ 16
  pub length_fits : h.length_field < 2 ^ 64

-- The bytes of a header and of what follows, bracketed to the right.
encode-append :
    (h : PacketHeader) (rest : Bytes)
    → encode_packet_header h ++ rest
      ≡ h.magic
        ++ (put_le 8 h.length_field ++ (h.hash ++ (h.recovery_set_id ++ (h.packet_type ++ rest))))
unfolding encode_packet_header
encode-append h rest = simp append_assoc

pub decode-encode :
    (h : PacketHeader) (rest : Bytes)
    → HasSizes h
    → decode_packet_header (encode_packet_header h ++ rest) ≡ h
unfolding decode_packet_header
decode-encode h rest s =
    let len = put_le 8 h.length_field in
    rw (encode-append h rest) (
      simp (
        take-append 8 h.magic _ s.magic_size,
        drop-append 8 h.magic _ s.magic_size,
        take-append 8 len _ (length-put_le 8 h.length_field),
        drop-append 8 len _ (length-put_le 8 h.length_field),
        take-append 16 h.hash _ s.hash_size,
        drop-append 16 h.hash _ s.hash_size,
        take-append 16 h.recovery_set_id _ s.set_size,
        drop-append 16 h.recovery_set_id _ s.set_size,
        take-append 16 h.packet_type rest s.type_size,
        get_le-put_le 8 h.length_field s.length_fits,
      ))

length-encode : (h : PacketHeader) → HasSizes h → length (encode_packet_header h) ≡ 64
unfolding encode_packet_header
length-encode h s = simp (length-append, length-put_le) (omega (arith, s))

drop-encode :
    (h : PacketHeader) (rest : Bytes) → HasSizes h → drop 64 (encode_packet_header h ++ rest) ≡ rest
drop-encode h rest s = drop-append 64 (encode_packet_header h) rest (length-encode h s)

-- The header that is written before a body.
module _ (md5 : Bytes → Bytes) (digest_size : (xs : Bytes) → length (md5 xs) ≡ 16) where
  module _ (set_id packet_type body : Bytes) (set_size : length set_id ≡ 16)
      (type_size : length packet_type ≡ 16) (aligned : length body % 4 ≡ 0)
      (fits : length body < 2 ^ 62) where
    abbrev written : PacketHeader
    written = record {
      magic = expected_magic;
      length_field = (64 + length body) % 2 ^ 64;
      hash = compute_packet_hash md5 set_id packet_type body;
      recovery_set_id = set_id;
      packet_type = packet_type;
    }

    written-HasSizes : HasSizes written
    unfolding compute_packet_hash
    written-HasSizes = record {
      magic_size = refl;
      hash_size = digest_size (set_id ++ (packet_type ++ body));
      set_size = set_size;
      type_size = type_size;
      length_fits = omega arith;
    }

    check_written : check_packet_header written ≡ ok tt
    unfolding check_packet_header
    check_written = ground (arith, same_bytes_refl expected_magic)

    write_written :
        (buf : Bytes)
        → write_next_packet md5 buf set_id packet_type body
          ≡ ok ((buf ++ encode_packet_header written) ++ body)
    unfolding write_next_packet write_packet_header
    write_written buf = rw check_written

    read_written :
        (rest : Bytes)
        → read_packet_header (encode_packet_header written ++ rest) ≡ ok (written, rest)
    unfolding read_packet_header
    read_written rest =
        let size : length (encode_packet_header written ++ rest) ≡ 64 + length rest =
          length-append (encode_packet_header written) rest
          ∙ ap (λ (n : ℕ). n + length rest) (length-encode written written-HasSizes) in
        let not_empty : (length (encode_packet_header written ++ rest) == 0) ≡ false =
          ground arith in
        let not_short : ltb (length (encode_packet_header written ++ rest)) 64 ≡ false =
          ground arith in
        rw (
          not_empty,
          not_short,
          decode-encode written rest written-HasSizes,
          check_written,
          drop-encode written rest written-HasSizes,
        )

    -- A packet whose body is aligned is written without an error, as bytes behind those of any
    -- buffer, and is read back from these bytes as it was, in front of any others.
    pub read_next_packet-write_next_packet :
        (out : Bytes) × (((buf : Bytes)
            → write_next_packet md5 buf set_id packet_type body ≡ ok (buf ++ out))
          × ((rest : Bytes)
              → read_next_packet md5 (out ++ rest)
                ≡ ok (record {
                  set_id = set_id;
                  packet_type = packet_type;
                  body = body;
                  rest = rest;
                })))
    unfolding read_next_packet
    read_next_packet-write_next_packet =
        let out = encode_packet_header written ++ body in
        let size : (64 + length body) % 2 ^ 64 - 64 ≡ length body = omega arith in
        let short : ltb (length body) (2 ^ 63) ≡ true = lt→ltb _ _ (omega arith) in
        let same : (length body == length body) ≡ true = ground arith in
        (
          out,
          (
            λ buf. write_written buf ∙ ap ok (append_assoc buf (encode_packet_header written) body),
            λ rest.
                let all : read_packet_header (out ++ rest) ≡ ok (written, body ++ rest) =
                  ap read_packet_header (append_assoc (encode_packet_header written) body rest)
                  ∙ read_written (body ++ rest) in
                rw (
                  all,
                  size,
                  short,
                  take-append (length body) body rest refl,
                  same,
                  same_bytes_refl (compute_packet_hash md5 set_id packet_type body),
                  drop-append (length body) body rest refl,
                ),
          ),
        )
