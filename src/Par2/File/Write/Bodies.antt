-- ===== src/Par2/File/Write/Bodies.antt =====
-- The bodies that writeFile makes are those of packets, and readFile handles them.
use gopar.Common.{
  ℕ, ◌+◌, ◌-◌, ◌%◌, ◌≡◌, ◌<◌, ◌∙◌, sym, ap, refl, true, ◌==◌, if◌then◌else◌, List, [], ◌∷◌, ◌++◌,
  length, replicate, length-append, length-replicate, All, Option, none, some, arith, Bool-cases,
  inl, inr,
}
use mathlib.Core.List.{append-nil}
use gopar.Common.Bytes.{Bytes, same_bytes, same_bytes_refl, Result, ◌>>=◌, Result-cases}
use gopar.Par2.Error.{Error}
use gopar.Par2.Packet.{write_next_packet}
use gopar.Par2.File.{Found, pad_packet_bytes, write_packets, handle_packet, load_packet}
use gopar.Par2.File.Written.{IsPacket, handle_packets}

-- Padding makes a body aligned with null bytes, as many as `padding` counts.
pub pad_packet_bytes_lem :
    (body : Bytes)
    → (n : ℕ) × (pad_packet_bytes body ≡ body ++ replicate n 0)
      × ((length (pad_packet_bytes body) % 4 ≡ 0)
          × (length (pad_packet_bytes body) < length body + 4))
unfolding pad_packet_bytes
pad_packet_bytes_lem body = elim (Bool-cases (length body % 4 == 0)) [
  | inl t ↦ (0, rw t (sym (append-nil body)), rw t (ground arith, omega arith))
  | inr t ↦
      let n = 4 - length body % 4 in
      let size : length (body ++ replicate n 0) ≡ length body + n =
        length-append body (replicate n 0)
        ∙ ap (λ (k : ℕ). length body + k) (length-replicate n 0) in
      (n, rw t refl, rw t (ground (arith, size), ground (arith, size)))
]

-- A body that is aligned is left as it is.
pub pad_packet_bytes-aligned : (body : Bytes) → length body % 4 ≡ 0 → pad_packet_bytes body ≡ body
unfolding pad_packet_bytes
pad_packet_bytes-aligned body h = let t : (length body % 4 == 0) ≡ true = ground arith in rw t refl

module _ (md5 : Bytes → Bytes) (set_id : Bytes) where
  pub write_packets-append :
      (ps qs : List (Bytes × Bytes)) (buf : Bytes)
      → write_packets md5 buf set_id (ps ++ qs)
        ≡ (write_packets md5 buf set_id ps >>= λ buf'. write_packets md5 buf' set_id qs)
  unfolding write_packets
  write_packets-append [] qs buf = refl
  write_packets-append ((packet_type, body) ∷ ps) qs buf =
      elim (Result-cases (write_next_packet md5 buf set_id packet_type body)) [
        | inl (e, failed) ↦ rw failed refl
        | inr (buf', written) ↦ rw written (write_packets-append ps qs buf')
      ]

  pub handle_packets-append :
      (ps qs : List (Bytes × Bytes)) (s : Found)
      → handle_packets md5 s set_id (ps ++ qs)
        ≡ (handle_packets md5 s set_id ps >>= λ s'. handle_packets md5 s' set_id qs)
  handle_packets-append [] qs s = refl
  handle_packets-append ((packet_type, body) ∷ ps) qs s =
      elim (Result-cases (handle_packet md5 s set_id packet_type body)) [
        | inl (e, failed) ↦ rw failed refl
        | inr (s', handled) ↦ rw handled (handle_packets-append ps qs s')
      ]

  known_set :
      (o : Option Bytes) (a b c : Result Error Found)
      → o ≡ some set_id
      → elim o [ none ↦ a | some expected ↦ if same_bytes set_id expected then b else c ] ≡ b
  known_set none a b c e = absurd cc
  known_set (some expected) a b c e = ground (arith, same_bytes_refl set_id)

  -- A packet of the set that is read is loaded.
  pub handle_packet-known :
      (s : Found) (packet_type body : Bytes)
      → s.set_id ≡ some set_id
      → handle_packet md5 s set_id packet_type body
        ≡ load_packet md5 (record s { found_packet = true }) packet_type body
  unfolding handle_packet
  handle_packet-known s packet_type body known = known_set s.set_id _ _ _ known

  pub All-append :
      (ps qs : List (Bytes × Bytes)) → All IsPacket ps → All IsPacket qs → All IsPacket (ps ++ qs)
  All-append [] qs h k = k
  All-append (p ∷ ps) qs h k = (h.0, All-append ps qs h.1 k)
