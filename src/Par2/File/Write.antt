-- ===== src/Par2/File/Write.antt =====
-- writeFile of par2/file.go: the packets of a file, written in order. A map is iterated over in the
-- order of its association list.
pub mod Bodies
pub mod Lookups
pub mod ReadBack
pub mod Steps
pub mod Whole
use gopar.Common.{
  ℕ, zero, suc, ◌==◌, leb, if◌then◌else◌, not, List, [], ◌∷◌, ◌++◌, length, map, Option, none, some,
  lookup,
}
use gopar.Common.Bytes.{Bytes, same_bytes, Result, ok, err, ◌>>=◌, ◌>>◌, guard}
use gopar.Par2.Packet.{write_next_packet}
use gopar.Par2.Strings.{write_creator_packet}
use gopar.Par2.MainPacket.{MainPacket, write_main_packet}
use gopar.Par2.FileDescriptionPacket.{write_file_description_packet}
use gopar.Par2.IfscPacket.{write_ifsc_packet}
use gopar.Par2.RecoveryPacket.{write_recovery_packet}
use gopar.Par2.Error.{Error, empty_client_id, no_main_packet, no_file_description, no_checksums}
use gopar.Par2.File.{
  File, creator_packet_type, main_packet_type, file_description_packet_type, ifsc_packet_type,
  recovery_packet_type, pad_packet_bytes, write_packets,
}

-- sort.Ints.
unfoldable pub insert_sorted : ℕ → List ℕ → List ℕ
insert_sorted n [] = n ∷ []
insert_sorted n (m ∷ ms) = if leb n m then n ∷ (m ∷ ms) else m ∷ insert_sorted n ms

unfoldable pub sort_ints : List ℕ → List ℕ
sort_ints [] = []
sort_ints (n ∷ ns) = insert_sorted n (sort_ints ns)

-- The keys of the map of recovery packets.
unfoldable pub exponents : List (ℕ × Bytes) → List ℕ
exponents [] = []
exponents ((exponent, data_bytes) ∷ packets) = exponent ∷ exponents packets

-- An index of a map of slices that is not there is nil.
abbrev pub or_nil : Option Bytes → Bytes
or_nil none = []
or_nil (some data_bytes) = data_bytes

abbrev pub find : {V : Type 0} → Option V → Error → Result Error V
find none e = err e
find (some v) e = ok v

module _ (md5 : Bytes → Bytes) (file : File) (set_id : Bytes) where
  open file use {file_description_packets, ifsc_packets, recovery_packets}

  -- The loop over the file IDs.
  unfoldable pub write_described : Bytes → List Bytes → Result Error Bytes
  write_described buf [] = ok buf
  write_described buf (file_id ∷ file_ids) = do
    packet ← find (lookup same_bytes file_id file_description_packets) no_file_description
    description_bytes ← write_file_description_packet md5 file_id packet
    buf1 ←
        write_next_packet md5 buf set_id file_description_packet_type
          (pad_packet_bytes description_bytes)
    pairs ← find (lookup same_bytes file_id ifsc_packets) no_checksums
    ifsc_bytes ← write_ifsc_packet file_id pairs
    buf2 ← write_next_packet md5 buf1 set_id ifsc_packet_type (pad_packet_bytes ifsc_bytes)
    write_described buf2 file_ids

  -- The loop over the sorted exponents.
  unfoldable pub write_recovery : Bytes → List ℕ → Result Error Bytes
  write_recovery buf [] = ok buf
  write_recovery buf (exponent ∷ rest) = do
    recovery_bytes ← write_recovery_packet exponent (or_nil (lookup ◌==◌ exponent recovery_packets))
    buf1 ← write_next_packet md5 buf set_id recovery_packet_type (pad_packet_bytes recovery_bytes)
    write_recovery buf1 rest

  -- The loop over the other packets, by their types.
  unfoldable pub write_unknown : Bytes → List (Bytes × List Bytes) → Result Error Bytes
  write_unknown buf [] = ok buf
  write_unknown buf ((packet_type, bodies) ∷ packets) = do
    buf1 ← write_packets md5 buf set_id (map (λ body. (packet_type, body)) bodies)
    write_unknown buf1 packets

module _ (md5 : Bytes → Bytes) where
  -- writeFile once it has a main packet.
  unfoldable pub write_set : File → MainPacket → Result Error (Bytes × Bytes)
  write_set file main_packet = do
    main_bytes ← write_main_packet main_packet
    let padded_main_bytes = pad_packet_bytes main_bytes
    let set_id = md5 padded_main_bytes
    creator_bytes ← write_creator_packet file.client_id
    buf1 ← write_next_packet md5 [] set_id creator_packet_type (pad_packet_bytes creator_bytes)
    buf2 ← write_next_packet md5 buf1 set_id main_packet_type padded_main_bytes
    buf3 ←
        write_described md5 file set_id buf2
          (main_packet.recovery_set ++ main_packet.non_recovery_set)
    buf4 ← write_recovery md5 file set_id buf3 (sort_ints (exponents file.recovery_packets))
    buf5 ← write_unknown md5 file set_id buf4 file.unknown_packets
    ok (set_id, buf5)

  unfoldable pub write_file : File → Result Error (Bytes × Bytes)
  write_file file = do
    guard (not (length file.client_id == 0)) empty_client_id
    main_packet ← find file.main_packet no_main_packet
    write_set file main_packet
