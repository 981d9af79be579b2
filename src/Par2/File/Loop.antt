-- ===== src/Par2/File/Loop.antt =====
-- readFile's loop ends, and over packets that were written it handles each of them in order.
use gopar.Common.{
  ℕ, suc, zero, ◌+◌, ◌-◌, ◌^◌, ◌≡◌, ◌<◌, ◌≤◌, sym, ap, ◌∙◌, ◌==◌, ltb, Bool-cases, inl, inr, length,
  take, drop, Option, some, arith, length-drop,
}
use gopar.Common.Bytes.{
  Bytes, same_bytes, Result, ok, err, ◌>>=◌, ◌>>◌, bind-ok, then-ok, guard-then, ok-injective,
  Result-cases,
}
use gopar.Par2.Packet.{
  Packet, PacketHeader, check_packet_header, decode_packet_header, compute_packet_hash,
  read_packet_header, read_next_packet,
}
use gopar.Par2.Error.{Error, could_not_read_body, hash_mismatch, panic}
use gopar.Par2.File.{
  Found, at_error, nothing_found, handle_packet, read_packets, finish_file, read_file,
}

read_packet_header-shorter :
    (buf rest : Bytes) (h : PacketHeader)
    → read_packet_header buf ≡ ok (h, rest)
    → 64 + length rest ≤ length buf
unfolding read_packet_header
read_packet_header-shorter buf rest h e = elim (Bool-cases (length buf == 0)) [
  | inl t ↦ ground arith
  | inr t ↦ elim (Bool-cases (ltb (length buf) 64)) [
    | inl u ↦ ground arith
    | inr u ↦
        let decoded = decode_packet_header buf in
        let goes_on : read_packet_header buf
            ≡ (check_packet_header decoded >> ok (decoded, drop 64 buf)) =
          rw (t, u) in
        let (checked, e1) = then-ok (check_packet_header decoded) _ (h, rest) (sym goes_on ∙ e) in
        let same : drop 64 buf ≡ rest =
          ap (λ q. q.1) (ok-injective (decoded, drop 64 buf) (h, rest) e1) in
        let long : 64 ≤ length buf = ground arith in
        omega (arith, ap length same, length-drop 64 buf, long)
  ]
]

module _ (md5 : Bytes → Bytes) where
  pub read_next_packet-shorter :
      (buf : Bytes) (p : Packet) → read_next_packet md5 buf ≡ ok p → length p.rest < length buf
  unfolding read_next_packet
  read_next_packet-shorter buf p e =
      let ((h, rest), (e0, e1)) = bind-ok (read_packet_header buf) _ p e in
      let n = h.length_field - 64 in
      let (g1, e2) = guard-then (ltb n (2 ^ 63)) panic _ p e1 in
      let (g2, e3) = guard-then (length (take n rest) == n) could_not_read_body _ p e2 in
      let computed = compute_packet_hash md5 h.recovery_set_id h.packet_type (take n rest) in
      let (g3, e4) = guard-then (same_bytes computed h.hash) hash_mismatch _ p e3 in
      let same : drop n rest ≡ p.rest = ap (λ q. q.rest) (ok-injective _ p e4) in
      omega (arith, ap length same, length-drop n rest, read_packet_header-shorter buf rest h e0)

  -- With a turn for each byte of the buffer and one more, the loop ends.
  read_packets-total :
      (fuel : ℕ) (buf : Bytes) (s : Found)
      → length buf < fuel
      → (r : Result Error Found) × (read_packets md5 fuel buf s ≡ some r)
  unfolding read_packets
  read_packets-total zero buf s h = absurd (omega arith)
  read_packets-total (suc fuel) buf s h = elim (Result-cases (read_next_packet md5 buf)) [
    | inl (e, failed) ↦ (at_error s e, rw (failed, read_packets))
    | inr (p, read) ↦ elim (Result-cases (handle_packet md5 s p.set_id p.packet_type p.body)) [
      | inl (e, failed) ↦ (err e, rw (read, failed, read_packets))
      | inr (s', handled) ↦
          let (r, ends) =
            read_packets-total fuel p.rest s'
              (omega (arith, read_next_packet-shorter buf p read)) in
          (r, rw (read, handled, ends, read_packets))
    ]
  ]

  -- The loop of readFile ends on every input, after at most one turn for each byte and one more, with
  -- a file, with an error or with the run-time panic of buf.Next on a body length that is negative.
  pub read_file-total :
      (expected_set_id : Option Bytes) (file_bytes : Bytes)
      → (r : Result Error _) × (read_file md5 expected_set_id file_bytes ≡ some r)
  unfolding read_file
  read_file-total expected_set_id file_bytes =
      let (r, ends) =
        read_packets-total (suc (length file_bytes)) file_bytes (nothing_found expected_set_id)
          (omega arith) in
      (r >>= finish_file, rw (ends, read_file))
