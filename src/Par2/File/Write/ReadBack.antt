-- ===== src/Par2/File/Write/ReadBack.antt =====
-- A file that writeFile writes is read back by readFile.
use gopar.Common.{
  ℕ, suc, ◌+◌, ◌*◌, ◌%◌, ◌^◌, ◌≡◌, ◌<◌, ◌∙◌, sym, ap, refl, true, ◌==◌, List, ◌∷◌, ◌++◌, length,
  some, arith, lookup, length-append, replicate, not,
}
use mathlib.Core.Path.{subst}
use gopar.Common.Bytes.{Bytes, same_bytes, put_le, ok, ok-injective}
use gopar.Par2.MainPacket.{MainPacket, write_main_packet, read_main_packet}
use gopar.Par2.MainPacket.RoundTrip
use gopar.Par2.MainPacket.RoundTrip.{write_main_packet-bytes, read_main_packet-write_main_packet}
use gopar.Par2.FileDescriptionPacket
use gopar.Par2.FileDescriptionPacket.{
  FileDescriptionPacket, compute_file_id, read_file_description_packet,
  write_file_description_packet, read_file_description_packet-write_file_description_packet,
  write_file_description_packet-bytes,
}
use gopar.Par2.IfscPacket.{
  ChecksumPair, HaveSizes, encode_checksum_pairs, read_ifsc_packet, write_ifsc_packet,
  length-encode, read_ifsc_packet-write_ifsc_packet,
}
use gopar.Par2.RecoveryPacket.{
  read_recovery_packet, write_recovery_packet, read_recovery_packet-write_recovery_packet,
}
use gopar.Par2.Strings.{
  IsText, write_creator_packet, read_creator_packet, encode_text, decode_padded,
}
use gopar.Par2.File.{
  File, pad_packet_bytes, creator_packet_type, main_packet_type, file_description_packet_type,
  ifsc_packet_type, recovery_packet_type,
}
use gopar.Par2.File.Written.{IsPacket}
use gopar.Par2.File.Write.Bodies.{pad_packet_bytes_lem, pad_packet_bytes-aligned}

-- What writing and reading a packet asks for and gives: a body that is that of a packet once it is
-- padded, and that reads as `value` then.
abbrev pub IsRead : {A : Type 0} → Bytes → Bytes → A → (Bytes → A) → Type 0
IsRead packet_type body value read =
    IsPacket (packet_type, pad_packet_bytes body) × (read (pad_packet_bytes body) ≡ value)

module _ (md5 : Bytes → Bytes) (digest_size : (xs : Bytes) → length (md5 xs) ≡ 16)
    (file : File) where
  -- A file ID with a valid description and checksums.
  pub record IsDescribed (file_id : Bytes) : Type 0 where
    pub description : FileDescriptionPacket
    pub has_description : lookup same_bytes file_id file.file_description_packets ≡ some description
    pub is_valid : FileDescriptionPacket.IsValid description
    pub is_id :
        compute_file_id md5 description.sixteen_k_hash description.byte_count description.filename
        ≡ file_id
    pub short_name : length description.filename < 2 ^ 60
    pub pair : ChecksumPair
    pub pairs : List ChecksumPair
    pub has_checksums : lookup same_bytes file_id file.ifsc_packets ≡ some (pair ∷ pairs)
    pub sizes : HaveSizes (pair ∷ pairs)
    pub few_pairs : length pairs < 2 ^ 50

  -- An exponent with recovery data.
  pub record IsRecovery (exponent : ℕ) : Type 0 where
    pub data_bytes : Bytes
    pub has_data : lookup ◌==◌ exponent file.recovery_packets ≡ some data_bytes
    pub is_uint16 : exponent < 2 ^ 16
    pub some_data : 0 < length data_bytes
    pub aligned : length data_bytes % 4 ≡ 0
    pub short : length data_bytes < 2 ^ 60

  pub description-IsRead :
      (file_id : Bytes) (h : IsDescribed file_id)
      → (body : Bytes) × (write_file_description_packet md5 file_id h.description ≡ ok body)
        × IsRead file_description_packet_type body
            (ok (file_id, h.description))
            (read_file_description_packet md5)
  description-IsRead file_id h =
      let p = h.description in
      let (body, written, size) =
        write_file_description_packet-bytes md5 digest_size p h.is_valid in
      let (padding, padded, (aligned, short)) = pad_packet_bytes_lem body in
      let (body', written', read) =
        read_file_description_packet-write_file_description_packet md5 digest_size p padding
          h.is_valid in
      let same : body' ≡ body = ok-injective body' body (sym written' ∙ written) in
      subst
        (λ (id : Bytes).
          (b : Bytes) × (write_file_description_packet md5 id p ≡ ok b)
          × IsRead file_description_packet_type b (ok (id, p)) (read_file_description_packet md5))
        h.is_id
        (
          body,
          written,
          (
            (refl, (aligned, omega (arith, size, short, h.short_name))),
            ap (read_file_description_packet md5)
                  (padded ∙ ap (λ b. b ++ replicate padding 0) (sym same))
                ∙ read,
          ),
        )

  pub checksums-IsRead :
      (file_id : Bytes) (h : IsDescribed file_id)
      → length file_id ≡ 16
      → (body : Bytes) × (write_ifsc_packet file_id (h.pair ∷ h.pairs) ≡ ok body)
        × IsRead ifsc_packet_type body (ok (file_id, h.pair ∷ h.pairs)) read_ifsc_packet
  unfolding write_ifsc_packet
  checksums-IsRead file_id h id_size =
      let (body, written, read) =
        read_ifsc_packet-write_ifsc_packet file_id h.pair h.pairs id_size h.sizes in
      let same : file_id ++ encode_checksum_pairs (h.pair ∷ h.pairs) ≡ body =
        let some_pairs : (not (suc (length h.pairs) == 0)) ≡ true = ground arith in
        ok-injective (file_id ++ encode_checksum_pairs (h.pair ∷ h.pairs)) body
          (rw some_pairs at written) in
      let size : length body ≡ 16 + suc (length h.pairs) * 20 =
        ap length (sym same)
        ∙ length-append file_id (encode_checksum_pairs (h.pair ∷ h.pairs))
        ∙ omega (arith, id_size, length-encode (h.pair ∷ h.pairs) h.sizes) in
      let padded = pad_packet_bytes-aligned body (omega arith) in
      (body, written, rw padded ((refl, (omega arith, omega (arith, h.few_pairs))), read))

  pub recovery-IsRead :
      (exponent : ℕ) (h : IsRecovery exponent)
      → (body : Bytes) × (write_recovery_packet exponent h.data_bytes ≡ ok body)
        × IsRead recovery_packet_type body (ok (exponent, h.data_bytes)) read_recovery_packet
  unfolding write_recovery_packet
  recovery-IsRead exponent h =
      let (body, written, read) =
        read_recovery_packet-write_recovery_packet exponent h.data_bytes h.is_uint16 h.some_data
          h.aligned in
      let same : put_le 4 exponent ++ h.data_bytes ≡ body =
        ground (arith, h.some_data, h.aligned, written) in
      let size : length body ≡ 4 + length h.data_bytes = ap length (sym same) ∙ omega arith in
      let padded = pad_packet_bytes-aligned body (omega (arith, h.aligned)) in
      (body, written, rw padded ((refl, (omega (arith, h.aligned), omega (arith, h.short))), read))

pub creator-IsRead :
    (client_id : Bytes)
    → IsText client_id
    → length client_id < 2 ^ 60
    → (body : Bytes) × (write_creator_packet client_id ≡ ok body)
      × IsRead creator_packet_type body client_id read_creator_packet
unfolding write_creator_packet read_creator_packet
creator-IsRead client_id text short =
    let (padding, padded, (aligned, shorter)) = pad_packet_bytes_lem client_id in
    (
      client_id,
      encode_text client_id text,
      (
        (refl, (aligned, omega arith)),
        ap read_creator_packet padded ∙ decode_padded client_id padding text,
      ),
    )

pub main-IsRead :
    (p : MainPacket)
    → RoundTrip.IsValid p
    → length p.non_recovery_set < 2 ^ 50
    → (body : Bytes) × (write_main_packet p ≡ ok body)
      × IsRead main_packet_type body (ok p) read_main_packet
main-IsRead p v few =
    let (body, written, size) = write_main_packet-bytes p v in
    let (body', written', read) = read_main_packet-write_main_packet p v in
    let same : body' ≡ body = ok-injective body' body (sym written' ∙ written) in
    let padded = pad_packet_bytes-aligned body (omega (arith, size)) in
    (
      body,
      written,
      rw padded (
        (refl, (omega (arith, size), omega (arith, size, v.few_ids))),
        ap read_main_packet (sym same) ∙ read,
      ),
    )
