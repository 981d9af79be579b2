-- ===== src/Par2/RecoveryPacket.antt =====
-- par2/recovery_packet.go: a slice of recovery data with its exponent.
use gopar.Common.{
  ℕ, ◌+◌, ◌-◌, ◌%◌, ◌^◌, ◌≡◌, ◌<◌, ◌==◌, ltb, not, ◌||◌, true, ◌++◌, length, take, drop, arith,
}
use gopar.Common.Bytes.{Bytes, put_le, get_le, get_le-put_le, Result, ok, ◌>>◌, guard}
use gopar.Par2.Error.{Error, invalid_recovery_byte_count, exponent_out_of_range}

abbrev pub max_uint16 : ℕ
max_uint16 = 2 ^ 16 - 1

unfoldable pub read_recovery_packet : Bytes → Result Error (ℕ × Bytes)
read_recovery_packet body = do
  guard (not (length body == 0 || not (length body % 4 == 0))) invalid_recovery_byte_count
  let exp = get_le (take 4 body)
  guard (not (ltb max_uint16 exp)) exponent_out_of_range
  ok (exp, drop 4 body)

-- The exponent is a uint16.
unfoldable pub write_recovery_packet : ℕ → Bytes → Result Error Bytes
write_recovery_packet exp data_bytes = do
  guard (not (length data_bytes == 0 || not (length data_bytes % 4 == 0)))
      invalid_recovery_byte_count
  ok (put_le 4 exp ++ data_bytes)

-- A recovery packet that is written without an error is read back with its exponent, and it is
-- written whenever its data is not empty and aligned.
pub read_recovery_packet-write_recovery_packet :
    (exp : ℕ) (data_bytes : Bytes)
    → exp < 2 ^ 16
    → 0 < length data_bytes
    → length data_bytes % 4 ≡ 0
    → (body : Bytes) × (write_recovery_packet exp data_bytes ≡ ok body)
      × (read_recovery_packet body ≡ ok (exp, data_bytes))
unfolding write_recovery_packet read_recovery_packet
read_recovery_packet-write_recovery_packet exp data_bytes small some_data aligned =
    let written : (not (length data_bytes == 0 || not (length data_bytes % 4 == 0))) ≡ true =
      ground arith in
    let size : length (put_le 4 exp ++ data_bytes) ≡ 4 + length data_bytes = omega arith in
    let accepted : (not (
          length (put_le 4 exp ++ data_bytes) == 0
          || not (length (put_le 4 exp ++ data_bytes) % 4 == 0)))
        ≡ true =
      ground arith in
    let same : get_le (put_le 4 exp) ≡ exp = get_le-put_le 4 exp (omega arith) in
    let in_range : (not (ltb max_uint16 exp)) ≡ true = ground arith in
    (put_le 4 exp ++ data_bytes, rw written, rw (accepted, same, in_range))
