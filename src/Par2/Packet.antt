-- ===== src/Par2/Packet.antt =====
-- par2/packet.go: packets, a header of 64 bytes and a body. The digest of crypto/md5 is a
-- parameter.
pub mod RoundTrip
use gopar.Common.{
  ℕ, ◌+◌, ◌-◌, ◌*◌, ◌%◌, ◌^◌, ◌==◌, ltb, leb, ◌||◌, ◌&&◌, not, if◌then◌else◌, Bool, true, false,
  List, [], ◌∷◌, ◌++◌, length, take, drop,
}
use gopar.Par2.Error.{
  Error, eof, unexpected_eof, unexpected_magic, invalid_length, could_not_read_body, hash_mismatch,
  panic,
}
use gopar.Common.Bytes.{Bytes, put_le, get_le, same_bytes, Result, ok, err, ◌>>=◌, ◌>>◌, guard}

pub record PacketHeader : Type 0 where
  pub magic : Bytes
  pub length_field : ℕ
  pub hash : Bytes
  pub recovery_set_id : Bytes
  pub packet_type : Bytes

abbrev pub expected_magic : Bytes
expected_magic = b'P' ∷ b'A' ∷ b'R' ∷ b'2' ∷ 0 ∷ b'P' ∷ b'K' ∷ b'T' ∷ []

abbrev pub size_of_packet_header : ℕ
size_of_packet_header = 64

unfoldable pub check_packet_header : PacketHeader → Result Error (Unit {0})
check_packet_header h =
    if not (same_bytes h.magic expected_magic)
    then err unexpected_magic
    else if ltb h.length_field size_of_packet_header || not (h.length_field % 4 == 0)
    then err invalid_length
    else ok tt

-- binary.Read of a header: the fields in order, little-endian.
unfoldable pub decode_packet_header : Bytes → PacketHeader
decode_packet_header bs =
    let bs1 = drop 8 bs in
    let bs2 = drop 8 bs1 in
    let bs3 = drop 16 bs2 in
    let bs4 = drop 16 bs3 in
    record {
      magic = take 8 bs;
      length_field = get_le (take 8 bs1);
      hash = take 16 bs2;
      recovery_set_id = take 16 bs3;
      packet_type = take 16 bs4;
    }

-- binary.Write of a header.
unfoldable pub encode_packet_header : PacketHeader → Bytes
encode_packet_header h =
    h.magic ++ (put_le 8 h.length_field ++ (h.hash ++ (h.recovery_set_id ++ h.packet_type)))

-- The header and what is left of the buffer.
unfoldable pub read_packet_header : Bytes → Result Error (PacketHeader × Bytes)
read_packet_header buf =
    if length buf == 0
    then err eof
    else if ltb (length buf) size_of_packet_header
    then err unexpected_eof
    else do
      let h = decode_packet_header buf
      check_packet_header h
      ok (h, drop size_of_packet_header buf)

unfoldable pub write_packet_header : Bytes → PacketHeader → Result Error Bytes
write_packet_header buf h = do check_packet_header h; ok (buf ++ encode_packet_header h)

-- A packet as it is read: its set, its type and its body, with the rest of the buffer.
pub record Packet : Type 0 where
  pub set_id : Bytes
  pub packet_type : Bytes
  pub body : Bytes
  pub rest : Bytes

module _ (md5 : Bytes → Bytes) where
  unfoldable pub compute_packet_hash : Bytes → Bytes → Bytes → Bytes
  compute_packet_hash set_id packet_type body = md5 (set_id ++ (packet_type ++ body))

  -- The length of the body is an int, so one of 2 ^ 63 and more is negative, and Next panics on it.
  unfoldable pub read_next_packet : Bytes → Result Error Packet
  read_next_packet buf = do
    (h, rest) ← read_packet_header buf
    let body_length = h.length_field - size_of_packet_header
    guard (ltb body_length (2 ^ 63)) panic
    let body = take body_length rest
    guard (length body == body_length) could_not_read_body
    guard (same_bytes (compute_packet_hash h.recovery_set_id h.packet_type body) h.hash)
        hash_mismatch
    ok (record {
      set_id = h.recovery_set_id;
      packet_type = h.packet_type;
      body = body;
      rest = drop body_length rest;
    })

  unfoldable pub write_next_packet : Bytes → Bytes → Bytes → Bytes → Result Error Bytes
  write_next_packet buf set_id packet_type body = do
    buf' ← write_packet_header buf (record {
      magic = expected_magic;
      length_field = (size_of_packet_header + length body) % 2 ^ 64;
      hash = compute_packet_hash set_id packet_type body;
      recovery_set_id = set_id;
      packet_type = packet_type;
    })
    ok (buf' ++ body)
