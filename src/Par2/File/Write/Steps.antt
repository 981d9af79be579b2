-- ===== src/Par2/File/Write/Steps.antt =====
-- The loops of writeFile write packets, and readFile loads them.
use gopar.Common.{
  ℕ, ◌≡◌, ◌∙◌, sym, refl, true, ◌==◌, ==_refl, ==_iff, List, [], ◌∷◌, ◌++◌, length, All, some, Mem,
  lookup, insert, Option-cases, inl, inr,
}
use mathlib.Core.Path.{subst}
use mathlib.Core.Option.{some-injective}
use gopar.Common.Bytes.{Bytes, same_bytes, same_bytes_refl, same_bytes→eq, Result, ok}
use gopar.Par2.Error.{Error}
use gopar.Par2.Packet.{write_next_packet}
use gopar.Par2.Packet.RoundTrip.{read_next_packet-write_next_packet}
use gopar.Par2.MainPacket.{MainPacket}
use gopar.Par2.FileDescriptionPacket.{FileDescriptionPacket, read_file_description_packet}
use gopar.Par2.IfscPacket.{ChecksumPair, read_ifsc_packet}
use gopar.Par2.RecoveryPacket.{read_recovery_packet}
use gopar.Par2.File.{
  Found, File, pad_packet_bytes, write_packets, handle_packet, load_packet, load_file_description,
  load_ifsc, load_recovery, agrees, file_description_packet_type, ifsc_packet_type,
  recovery_packet_type,
}
use gopar.Par2.File.Written.{IsPacket, handle_packets}
use gopar.Par2.File.Write.{write_described, write_recovery}
use gopar.Par2.File.Write.Lookups.{Within, insert-agree, insert-agree_self, insert-Within}
use gopar.Par2.File.Write.Bodies.{handle_packet-known}
use gopar.Par2.File.Write.ReadBack.{
  IsDescribed, IsRecovery, description-IsRead, checksums-IsRead, recovery-IsRead,
}

pub ==→eq : (a b : ℕ) → (a == b) ≡ true → a ≡ b
==→eq a b h = (==_iff a b).0 h

module _ (md5 : Bytes → Bytes) (digest_size : (xs : Bytes) → length (md5 xs) ≡ 16) (file : File)
    (main_packet : MainPacket) (set_id : Bytes) (set_size : length set_id ≡ 16) where
  -- What was found is in the file that was written.
  pub record Tracks (s : Found) : Type 0 where
    pub known : s.set_id ≡ some set_id
    pub any : s.found_packet ≡ true
    pub client : s.client_id ≡ some file.client_id
    pub main : s.main_packet ≡ some main_packet
    pub descriptions : Within same_bytes s.file_description_packets file.file_description_packets
    pub checksums : Within same_bytes s.ifsc_packets file.ifsc_packets
    pub recovery : Within ◌==◌ s.recovery_packets file.recovery_packets

  -- A file ID, and an exponent, with which everything was found that belongs to it.
  abbrev pub Described : Found → Bytes → Type 0
  Described s id =
      (lookup same_bytes id s.file_description_packets
        ≡ lookup same_bytes id file.file_description_packets)
      × (lookup same_bytes id s.ifsc_packets ≡ lookup same_bytes id file.ifsc_packets)

  abbrev pub Recovered : Found → ℕ → Type 0
  Recovered s e = lookup ◌==◌ e s.recovery_packets ≡ lookup ◌==◌ e file.recovery_packets

  -- What was found is kept.
  pub record Keeps (s s' : Found) : Type 0 where
    pub tracks : Tracks s'
    pub description :
        (id : Bytes)
        → lookup same_bytes id s.file_description_packets
          ≡ lookup same_bytes id file.file_description_packets
        → lookup same_bytes id s'.file_description_packets
          ≡ lookup same_bytes id file.file_description_packets
    pub checksum :
        (id : Bytes)
        → lookup same_bytes id s.ifsc_packets ≡ lookup same_bytes id file.ifsc_packets
        → lookup same_bytes id s'.ifsc_packets ≡ lookup same_bytes id file.ifsc_packets
    pub recovered : (e : ℕ) → Recovered s e → Recovered s' e

  Keeps-trans : (s s' s'' : Found) → Keeps s s' → Keeps s' s'' → Keeps s s''
  Keeps-trans s s' s'' h k = record {
    tracks = k.tracks;
    description = λ id e. k.description id (h.description id e);
    checksum = λ id e. k.checksum id (h.checksum id e);
    recovered = λ id e. k.recovered id (h.recovered id e);
  }

  Keeps-refl : (s : Found) → Tracks s → Keeps s s
  Keeps-refl s h = record {
    tracks = h;
    description = λ id e. e;
    checksum = λ id e. e;
    recovered = λ e k. k;
  }

  -- A packet is written behind the buffer.
  pub written :
      (packet_type body : Bytes)
      → IsPacket (packet_type, body)
      → (out : Bytes) × ((buf : Bytes)
          → write_next_packet md5 buf set_id packet_type body ≡ ok (buf ++ out))
  written packet_type body h =
      let (out, (w, r)) =
        read_next_packet-write_next_packet md5 digest_size set_id packet_type body set_size h.0
          h.1.0 h.1.1 in
      (out, w)

  load_description-Keeps :
      (s : Found) (id body : Bytes) (p : FileDescriptionPacket)
      → Tracks s
      → lookup same_bytes id file.file_description_packets ≡ some p
      → read_file_description_packet md5 body ≡ ok (id, p)
      → (s' : Found) × (handle_packet md5 s set_id file_description_packet_type body ≡ ok s')
        × (Keeps s s'
            × (lookup same_bytes id s'.file_description_packets
                ≡ lookup same_bytes id file.file_description_packets))
  unfolding load_packet load_file_description
  load_description-Keeps s id body p h has read =
      let m = s.file_description_packets in
      let f = file.file_description_packets in
      (
        record s { found_packet = true; file_description_packets = insert same_bytes id p m },
        handle_packet-known md5 set_id s file_description_packet_type body h.known ∙ rw read refl,
        (
          record {
            tracks = record {
              known = h.known;
              any = refl;
              client = h.client;
              main = h.main;
              descriptions =
                  insert-Within same_bytes same_bytes_refl same_bytes→eq id p m f has
                    h.descriptions;
              checksums = h.checksums;
              recovery = h.recovery;
            };
            description = λ j. insert-agree same_bytes same_bytes_refl same_bytes→eq id j p m f has;
            checksum = λ j e. e;
            recovered = λ j e. e;
          },
          insert-agree_self same_bytes same_bytes_refl same_bytes→eq id p m f has,
        ),
      )

  load_ifsc-Keeps :
      (s : Found) (id body : Bytes) (pairs : List ChecksumPair)
      → Tracks s
      → lookup same_bytes id file.ifsc_packets ≡ some pairs
      → read_ifsc_packet body ≡ ok (id, pairs)
      → (s' : Found) × (handle_packet md5 s set_id ifsc_packet_type body ≡ ok s')
        × (Keeps s s'
            × (lookup same_bytes id s'.ifsc_packets ≡ lookup same_bytes id file.ifsc_packets))
  unfolding load_packet load_ifsc
  load_ifsc-Keeps s id body pairs h has read =
      let m = s.ifsc_packets in
      let f = file.ifsc_packets in
      (
        record s { found_packet = true; ifsc_packets = insert same_bytes id pairs m },
        handle_packet-known md5 set_id s ifsc_packet_type body h.known ∙ rw read refl,
        (
          record {
            tracks = record {
              known = h.known;
              any = refl;
              client = h.client;
              main = h.main;
              descriptions = h.descriptions;
              checksums =
                  insert-Within same_bytes same_bytes_refl same_bytes→eq id pairs m f has
                    h.checksums;
              recovery = h.recovery;
            };
            description = λ j e. e;
            checksum =
                λ j. insert-agree same_bytes same_bytes_refl same_bytes→eq id j pairs m f has;
            recovered = λ j e. e;
          },
          insert-agree_self same_bytes same_bytes_refl same_bytes→eq id pairs m f has,
        ),
      )

  -- Recovery data that is found again is the same.
  agrees-Within :
      (m : List (ℕ × Bytes)) (exponent : ℕ) (data_bytes : Bytes)
      → Within ◌==◌ m file.recovery_packets
      → lookup ◌==◌ exponent file.recovery_packets ≡ some data_bytes
      → agrees m exponent data_bytes ≡ true
  unfolding agrees
  agrees-Within m exponent data_bytes h has = elim (Option-cases (lookup ◌==◌ exponent m)) [
    | inl none_found ↦ rw (none_found, agrees) refl
    | inr (existing, found) ↦
        let same : existing ≡ data_bytes =
          some-injective existing data_bytes (sym (h exponent existing found) ∙ has) in
        rw (found, same, agrees) (same_bytes_refl data_bytes)
  ]

  load_recovery-Keeps :
      (s : Found) (exponent : ℕ) (body data_bytes : Bytes)
      → Tracks s
      → lookup ◌==◌ exponent file.recovery_packets ≡ some data_bytes
      → read_recovery_packet body ≡ ok (exponent, data_bytes)
      → (s' : Found) × (handle_packet md5 s set_id recovery_packet_type body ≡ ok s')
        × (Keeps s s' × Recovered s' exponent)
  unfolding load_packet load_recovery
  load_recovery-Keeps s exponent body data_bytes h has read =
      let m = s.recovery_packets in
      let f = file.recovery_packets in
      (
        record s { found_packet = true; recovery_packets = insert ◌==◌ exponent data_bytes m },
        handle_packet-known md5 set_id s recovery_packet_type body h.known
            ∙ rw (read, agrees-Within m exponent data_bytes h.recovery has) refl,
        (
          record {
            tracks = record {
              known = h.known;
              any = refl;
              client = h.client;
              main = h.main;
              descriptions = h.descriptions;
              checksums = h.checksums;
              recovery = insert-Within ◌==◌ ==_refl ==→eq exponent data_bytes m f has h.recovery;
            };
            description = λ j e. e;
            checksum = λ j e. e;
            recovered = λ j. insert-agree ◌==◌ ==_refl ==→eq exponent j data_bytes m f has;
          },
          insert-agree_self ◌==◌ ==_refl ==→eq exponent data_bytes m f has,
        ),
      )

  -- Packets that a loop writes, and that leave a state with the property `P` when they are read.
  abbrev pub Writes : (Bytes → Result Error Bytes) → (Found → Type 0) → Type 0
  Writes write P =
      (packets : List (Bytes × Bytes)) × All IsPacket packets
      × (((buf : Bytes) → write buf ≡ write_packets md5 buf set_id packets)
          × ((s : Found)
              → Tracks s
              → (s' : Found) × (handle_packets md5 s set_id packets ≡ ok s') × (Keeps s s' × P s')))

  pub write_described-Writes :
      (ids : List Bytes)
      → All (λ id. IsDescribed md5 digest_size file id × (length id ≡ 16)) ids
      → Writes
          (λ buf. write_described md5 file set_id buf ids)
          (λ s. (id : Bytes) → Mem id ids → Described s id)
  unfolding write_described write_packets
  write_described-Writes [] h =
      ([], tt, (λ buf. refl, λ s t. (s, refl, (Keeps-refl s t, λ id m. absurd m))))
  write_described-Writes (id ∷ ids) h =
      let d = h.0.0 in
      let (b1, w1, (is_packet1, read1)) = description-IsRead md5 digest_size file id d in
      let (b2, w2, (is_packet2, read2)) = checksums-IsRead md5 digest_size file id d h.0.1 in
      let (out1, written1) =
        written file_description_packet_type (pad_packet_bytes b1) is_packet1 in
      let (out2, written2) = written ifsc_packet_type (pad_packet_bytes b2) is_packet2 in
      let (packets, all, (rest, load)) = write_described-Writes ids h.1 in
      (
        (file_description_packet_type, pad_packet_bytes b1)
            ∷ ((ifsc_packet_type, pad_packet_bytes b2) ∷ packets),
        (is_packet1, (is_packet2, all)),
        (
          λ buf.
              rw
                (
                  d.has_description,
                  w1,
                  written1 buf,
                  d.has_checksums,
                  w2,
                  written2 (buf ++ out1),
                  rest ((buf ++ out1) ++ out2),
                )
                refl,
          λ s t.
              let (s1, e1, (k1, d1)) =
                load_description-Keeps s id (pad_packet_bytes b1) d.description t d.has_description
                  read1 in
              let (s2, e2, (k2, d2)) =
                load_ifsc-Keeps s1 id (pad_packet_bytes b2) (d.pair ∷ d.pairs) k1.tracks
                  d.has_checksums read2 in
              let (s3, e3, (k3, d3)) = load s2 k2.tracks in
              (
                s3,
                rw (e1, e2, e3) refl,
                (
                  Keeps-trans s s1 s3 k1 (Keeps-trans s1 s2 s3 k2 k3),
                  λ j m. elim m [
                    | inl e ↦
                        subst (Described s3) (sym e)
                          (k3.description id (k2.description id d1), k3.checksum id d2)
                    | inr later ↦ d3 j later
                  ],
                ),
              ),
        ),
      )

  pub write_recovery-Writes :
      (es : List ℕ)
      → All (IsRecovery md5 digest_size file) es
      → Writes
          (λ buf. write_recovery md5 file set_id buf es)
          (λ s. (e : ℕ) → Mem e es → Recovered s e)
  unfolding write_recovery write_packets
  write_recovery-Writes [] h =
      ([], tt, (λ buf. refl, λ s t. (s, refl, (Keeps-refl s t, λ e m. absurd m))))
  write_recovery-Writes (e ∷ es) h =
      let d = h.0 in
      let (b, w, (is_packet, read)) = recovery-IsRead md5 digest_size file e d in
      let (out, written1) = written recovery_packet_type (pad_packet_bytes b) is_packet in
      let (packets, all, (rest, load)) = write_recovery-Writes es h.1 in
      (
        (recovery_packet_type, pad_packet_bytes b) ∷ packets,
        (is_packet, all),
        (
          λ buf. rw (d.has_data, w, written1 buf, rest (buf ++ out)) refl,
          λ s t.
              let (s1, e1, (k1, d1)) =
                load_recovery-Keeps s e (pad_packet_bytes b) d.data_bytes t d.has_data read in
              let (s2, e2, (k2, d2)) = load s1 k1.tracks in
              (
                s2,
                rw (e1, e2) refl,
                (
                  Keeps-trans s s1 s2 k1 k2,
                  λ j m. elim m [
                    | inl same ↦ subst (Recovered s2) (sym same) (k2.recovered e d1)
                    | inr later ↦ d2 j later
                  ],
                ),
              ),
        ),
      )
