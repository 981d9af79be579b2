-- ===== src/Par2/File.antt =====
-- par2/file.go: reading and writing the packets of a file. The calls of the delegate, which only
-- tell the caller of what is found, are left out.
pub mod Loop
pub mod Written
pub mod Write
use gopar.Common.{
  ℕ, suc, zero, ◌+◌, ◌-◌, ◌*◌, ◌/◌, ◌%◌, ◌≡◌, ◌==◌, ltb, if◌then◌else◌, not, ◌&&◌, Bool, true,
  false, List, [], ◌∷◌, ◌++◌, length, map, replicate, Option, none, some, lookup, insert,
}
use gopar.Common.Bytes.{Bytes, same_bytes, Result, ok, err, ◌>>=◌, ◌>>◌, guard}
use gopar.Par2.Packet.{Packet, read_next_packet, write_next_packet}
use gopar.Par2.Strings.{read_creator_packet, write_creator_packet}
use gopar.Par2.MainPacket.{MainPacket, read_main_packet, write_main_packet}
use gopar.Par2.FileDescriptionPacket.{
  FileDescriptionPacket, read_file_description_packet, write_file_description_packet,
}
use gopar.Par2.IfscPacket.{ChecksumPair, read_ifsc_packet, write_ifsc_packet}
use gopar.Par2.RecoveryPacket.{read_recovery_packet, write_recovery_packet}
use gopar.Par2.Error.{
  Error, eof, duplicate_exponent, no_packets_found, no_creator_packet, empty_client_id,
  no_main_packet, no_file_description, no_checksums,
}

-- The first eight bytes of every packet type.
abbrev pub packet_type_of : Bytes → Bytes
packet_type_of name = b'P' ∷ b'A' ∷ b'R' ∷ b' ' ∷ b'2' ∷ b'.' ∷ b'0' ∷ 0 ∷ name

abbrev pub creator_packet_type : Bytes
creator_packet_type = packet_type_of (b'C' ∷ b'r' ∷ b'e' ∷ b'a' ∷ b't' ∷ b'o' ∷ b'r' ∷ 0 ∷ [])

abbrev pub main_packet_type : Bytes
main_packet_type = packet_type_of (b'M' ∷ b'a' ∷ b'i' ∷ b'n' ∷ 0 ∷ 0 ∷ 0 ∷ 0 ∷ [])

abbrev pub file_description_packet_type : Bytes
file_description_packet_type =
    packet_type_of (b'F' ∷ b'i' ∷ b'l' ∷ b'e' ∷ b'D' ∷ b'e' ∷ b's' ∷ b'c' ∷ [])

abbrev pub ifsc_packet_type : Bytes
ifsc_packet_type = packet_type_of (b'I' ∷ b'F' ∷ b'S' ∷ b'C' ∷ 0 ∷ 0 ∷ 0 ∷ 0 ∷ [])

abbrev pub recovery_packet_type : Bytes
recovery_packet_type = packet_type_of (b'R' ∷ b'e' ∷ b'c' ∷ b'v' ∷ b'S' ∷ b'l' ∷ b'i' ∷ b'c' ∷ [])

-- The variables of readFile's loop: the packets found so far, and the set that they belong to.
pub record Found : Type 0 where
  pub set_id : Option Bytes
  pub found_packet : Bool
  pub client_id : Option Bytes
  pub main_packet : Option MainPacket
  pub file_description_packets : List (Bytes × FileDescriptionPacket)
  pub ifsc_packets : List (Bytes × List ChecksumPair)
  pub recovery_packets : List (ℕ × Bytes)
  pub unknown_packets : List (Bytes × List Bytes)

abbrev pub nothing_found : Option Bytes → Found
nothing_found expected_set_id = record {
  set_id = expected_set_id;
  found_packet = false;
  client_id = none;
  main_packet = none;
  file_description_packets = [];
  ifsc_packets = [];
  recovery_packets = [];
  unknown_packets = [];
}

-- A recovery packet of an exponent that was found before has to be the same.
unfoldable pub agrees : List (ℕ × Bytes) → ℕ → Bytes → Bool
agrees recovery_packets exponent data_bytes = elim (lookup ◌==◌ exponent recovery_packets) [
  | none ↦ true
  | some existing ↦ same_bytes existing data_bytes
]

abbrev pub or_none : Option (List Bytes) → List Bytes
or_none none = []
or_none (some bodies) = bodies

-- The loop ends well where the buffer does.
abbrev pub at_error : Found → Error → Result Error Found
at_error s eof = ok s
at_error s e = err e

-- The cases of readFile's switch are functions, one for each packet type.
module _ (md5 : Bytes → Bytes) where
  unfoldable pub load_creator : Found → Bytes → Result Error Found
  load_creator s body = ok (record s { client_id = some (read_creator_packet body) })

  unfoldable pub load_main : Found → Bytes → Result Error Found
  load_main s body = do
    main_packet ← read_main_packet body
    ok (record s { main_packet = some main_packet })

  unfoldable pub load_file_description : Found → Bytes → Result Error Found
  load_file_description s body = do
    (file_id, packet) ← read_file_description_packet md5 body
    ok (record s {
      file_description_packets = insert same_bytes file_id packet s.file_description_packets;
    })

  unfoldable pub load_ifsc : Found → Bytes → Result Error Found
  load_ifsc s body = do
    (file_id, pairs) ← read_ifsc_packet body
    ok (record s { ifsc_packets = insert same_bytes file_id pairs s.ifsc_packets })

  unfoldable pub load_recovery : Found → Bytes → Result Error Found
  load_recovery s body = do
    (exponent, data_bytes) ← read_recovery_packet body
    guard (agrees s.recovery_packets exponent data_bytes) duplicate_exponent
    ok (record s { recovery_packets = insert ◌==◌ exponent data_bytes s.recovery_packets })

  unfoldable pub load_unknown : Found → Bytes → Bytes → Result Error Found
  load_unknown s packet_type body =
      let bodies = or_none (lookup same_bytes packet_type s.unknown_packets) in
      ok (record s {
        unknown_packets = insert same_bytes packet_type (bodies ++ (body ∷ [])) s.unknown_packets;
      })

  unfoldable pub load_packet : Found → Bytes → Bytes → Result Error Found
  load_packet s packet_type body =
      if same_bytes packet_type creator_packet_type
      then load_creator s body
      else if same_bytes packet_type main_packet_type
      then load_main s body
      else if same_bytes packet_type file_description_packet_type
      then load_file_description s body
      else if same_bytes packet_type ifsc_packet_type
      then load_ifsc s body
      else if same_bytes packet_type recovery_packet_type
      then load_recovery s body
      else load_unknown s packet_type body

  -- One turn of readFile's loop, after a packet was read: a packet of another set is skipped.
  unfoldable pub handle_packet : Found → Bytes → Bytes → Bytes → Result Error Found
  handle_packet s set_id packet_type body = elim s.set_id [
    | none ↦ load_packet (record s { set_id = some set_id; found_packet = true }) packet_type body
    | some expected ↦
        if same_bytes set_id expected
        then load_packet (record s { found_packet = true }) packet_type body
        else ok s
  ]

  -- readFile's loop. It is none where the fuel ends before the loop does.
  unfoldable pub read_packets : ℕ → Bytes → Found → Option (Result Error Found)
  read_packets zero buf s = none
  read_packets (suc fuel) buf s = elim (read_next_packet md5 buf) [
    | err e ↦ some (at_error s e)
    | ok p ↦ elim (handle_packet s p.set_id p.packet_type p.body) [
      | err e ↦ some (err e)
      | ok s' ↦ read_packets fuel p.rest s'
    ]
  ]

-- A file that is read or written: the packets of one set.
pub record File : Type 0 where
  pub client_id : Bytes
  pub main_packet : Option MainPacket
  pub file_description_packets : List (Bytes × FileDescriptionPacket)
  pub ifsc_packets : List (Bytes × List ChecksumPair)
  pub recovery_packets : List (ℕ × Bytes)
  pub unknown_packets : List (Bytes × List Bytes)

-- The ID of no set is that of Go's zero value.
abbrev pub or_zero_id : Option Bytes → Bytes
or_zero_id none = replicate 16 0
or_zero_id (some set_id) = set_id

-- What readFile does after its loop.
unfoldable pub finish_file : Found → Result Error (Bytes × File)
finish_file s = do
  guard s.found_packet no_packets_found
  elim s.client_id [
    | none ↦ err no_creator_packet
    | some client_id ↦ ok (
      or_zero_id s.set_id,
      record {
        client_id = client_id;
        main_packet = s.main_packet;
        file_description_packets = s.file_description_packets;
        ifsc_packets = s.ifsc_packets;
        recovery_packets = s.recovery_packets;
        unknown_packets = s.unknown_packets;
      },
    )
  ]

-- Each packet takes bytes, so a turn for each byte, and one more, is enough.
unfoldable pub read_file :
    (Bytes → Bytes) → Option Bytes → Bytes → Option (Result Error (Bytes × File))
read_file md5 expected_set_id file_bytes =
    elim (read_packets md5 (suc (length file_bytes)) file_bytes (nothing_found expected_set_id)) [
      | none ↦ none
      | some found ↦ some (found >>= finish_file)
    ]

unfoldable pub pad_packet_bytes : Bytes → Bytes
pad_packet_bytes packet_bytes =
    if length packet_bytes % 4 == 0
    then packet_bytes
    else packet_bytes ++ replicate (4 - length packet_bytes % 4) 0

-- The packets of one set, a type and a body each, written in order.
unfoldable pub write_packets :
    (Bytes → Bytes) → Bytes → Bytes → List (Bytes × Bytes) → Result Error Bytes
write_packets md5 buf set_id [] = ok buf
write_packets md5 buf set_id ((packet_type, body) ∷ packets) = do
  buf' ← write_next_packet md5 buf set_id packet_type body
  write_packets md5 buf' set_id packets
