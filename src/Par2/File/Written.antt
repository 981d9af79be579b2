-- ===== src/Par2/File/Written.antt =====
-- A file of packets that were written is read by handling each of them in order.
use gopar.Common.{
  ℕ, suc, zero, ◌%◌, ◌^◌, ◌≡◌, ◌<◌, ◌≤◌, refl, sym, ap, ◌∙◌, List, [], ◌∷◌, ◌++◌, length, All,
  Option, some, inl, inr, arith,
}
use mathlib.Core.List.{append_assoc, append-nil}
use gopar.Common.Bytes.{Bytes, Result, ok, err, ◌>>=◌, Result-cases}
use gopar.Par2.Packet.{Packet, read_packet_header, read_next_packet}
use gopar.Par2.Packet.RoundTrip.{read_next_packet-write_next_packet}
use gopar.Par2.Error.{Error, eof}
use gopar.Par2.File.{
  Found, nothing_found, handle_packet, read_packets, finish_file, read_file, write_packets,
}
use gopar.Par2.File.Loop.{read_next_packet-shorter}

-- A type of 16 bytes and an aligned body.
abbrev pub IsPacket : Bytes × Bytes → Type 0
IsPacket (packet_type, body) =
    (length packet_type ≡ 16) × ((length body % 4 ≡ 0) × (length body < 2 ^ 62))

module _ (md5 : Bytes → Bytes) where
  -- What handling the packets of a set in order leaves.
  abbrev pub handle_packets : Found → Bytes → List (Bytes × Bytes) → Result Error Found
  handle_packets s set_id [] = ok s
  handle_packets s set_id ((packet_type, body) ∷ packets) =
      handle_packet md5 s set_id packet_type body >>= λ s'. handle_packets s' set_id packets

  read-empty : read_next_packet md5 [] ≡ err eof
  unfolding read_next_packet read_packet_header
  read-empty = refl

  -- The loop at the end of the buffer, and at a packet.
  read_packets-end : (fuel : ℕ) (s : Found) → 0 < fuel → read_packets md5 fuel [] s ≡ some (ok s)
  unfolding read_packets
  read_packets-end zero s h = absurd (omega arith)
  read_packets-end (suc fuel) s h = rw (read-empty, read_packets)

  read_packets-step :
      (fuel : ℕ) (s : Found) (buf : Bytes) (p : Packet) (k : Found → Result Error Found)
      → read_next_packet md5 buf ≡ ok p
      → ((s' : Found) → read_packets md5 fuel p.rest s' ≡ some (k s'))
      → read_packets md5 (suc fuel) buf s
        ≡ some (handle_packet md5 s p.set_id p.packet_type p.body >>= k)
  unfolding read_packets
  read_packets-step fuel s buf p k read h =
      elim (Result-cases (handle_packet md5 s p.set_id p.packet_type p.body)) [
        | inl (e, failed) ↦ rw (read, failed, read_packets)
        | inr (s', handled) ↦ rw (read, handled, h s', read_packets)
      ]

  at_packet :
      (set_id : Bytes) (packets : List (Bytes × Bytes)) (fuel : ℕ) (s : Found) (p : Packet)
      (buf : Bytes)
      → read_next_packet md5 buf ≡ ok p
      → suc (length packets) < fuel
      → ((fuel' : ℕ) (s' : Found)
          → length packets < fuel'
          → read_packets md5 fuel' p.rest s' ≡ some (handle_packets s' set_id packets))
      → read_packets md5 fuel buf s
        ≡ some (
            handle_packet md5 s p.set_id p.packet_type p.body >>= λ s'.
            handle_packets s' set_id packets)
  at_packet set_id packets zero s p buf read lt h = absurd (omega arith)
  at_packet set_id packets (suc fuel) s p buf read lt h =
      read_packets-step fuel s buf p _ read (λ s'. h fuel s' (omega arith))

  module _ (digest_size : (xs : Bytes) → length (md5 xs) ≡ 16) (set_id : Bytes)
      (set_size : length set_id ≡ 16) where
    read-written :
        (packets : List (Bytes × Bytes)) (buf : Bytes)
        → All IsPacket packets
        → (out : Bytes) × (write_packets md5 buf set_id packets ≡ ok (buf ++ out))
          × ((length packets ≤ length out)
              × ((fuel : ℕ) (s : Found)
                  → length packets < fuel
                  → read_packets md5 fuel out s ≡ some (handle_packets s set_id packets)))
    unfolding write_packets
    read-written [] buf h =
        ([], ap ok (sym (append-nil buf)), (omega arith, λ fuel s lt. read_packets-end fuel s lt))
    read-written ((packet_type, body) ∷ packets) buf h =
        let (out, (written, read)) =
          read_next_packet-write_next_packet md5 digest_size set_id packet_type body set_size h.0.0
            h.0.1.0 h.0.1.1 in
        let (outs, all_written, (longer, all_read)) = read-written packets (buf ++ out) h.1 in
        let p : Packet = record {
          set_id = set_id;
          packet_type = packet_type;
          body = body;
          rest = outs;
        } in
        (
          out ++ outs,
          rw (written buf) (all_written ∙ ap ok (append_assoc buf out outs)),
          (
            omega (arith, longer, read_next_packet-shorter md5 (out ++ outs) p (read outs)),
            λ fuel s lt. at_packet set_id packets fuel s p (out ++ outs) (read outs) lt all_read,
          ),
        )

    -- Aligned packets of one set are written without an error, and reading the file that they
    -- make is to handle each of them in order, from the first to the last.
    pub read_file-write_packets :
        (packets : List (Bytes × Bytes)) (expected_set_id : Option Bytes)
        → All IsPacket packets
        → (file_bytes : Bytes) × (write_packets md5 [] set_id packets ≡ ok file_bytes)
          × (read_file md5 expected_set_id file_bytes
              ≡ some
                  (handle_packets (nothing_found expected_set_id) set_id packets >>= finish_file))
    unfolding read_file
    read_file-write_packets packets expected_set_id h =
        let (out, written, (longer, read)) = read-written packets [] h in
        (
          out,
          written,
          rw (read (suc (length out)) (nothing_found expected_set_id) (omega arith), read_file),
        )
