-- ===== src/Par2/File/Write/Whole.antt =====
-- readFile reads what writeFile writes.
use gopar.Common.{
  ℕ, ◌%◌, ◌^◌, ◌≡◌, ◌<◌, ◌∙◌, sym, ap, refl, true, ◌==◌, ==_refl, not, List, [], ◌∷◌, ◌++◌, length,
  All, none, some, Mem, arith, lookup, inl, inr,
}
use gopar.Common.Bytes.{Bytes, same_bytes, same_bytes_refl, ok, ◌>>=◌, bind-ok, bind_step}
use gopar.Par2.Error.{no_main_packet}
use gopar.Par2.Strings.{IsText, write_creator_packet, read_creator_packet}
use gopar.Par2.MainPacket.{MainPacket, write_main_packet, read_main_packet}
use gopar.Par2.MainPacket.RoundTrip.{IsValid}
use gopar.Par2.Packet.{write_next_packet}
use gopar.Par2.File.{
  Found, File, nothing_found, pad_packet_bytes, write_packets, handle_packet, load_packet,
  load_creator, load_main, finish_file, read_file, creator_packet_type, main_packet_type,
}
use gopar.Par2.File.Written.{IsPacket, handle_packets, read_file-write_packets}
use gopar.Par2.File.Write.{
  write_described, write_recovery, write_unknown, write_set, write_file, exponents, sort_ints, find,
}
use gopar.Par2.File.Write.Lookups.{Within-lookup, found-sorted, sorted-found}
use gopar.Par2.File.Write.Bodies.{write_packets-append, handle_packets-append, All-append}
use gopar.Par2.File.Write.ReadBack.{IsDescribed, IsRecovery, creator-IsRead, main-IsRead}
use gopar.Par2.File.Write.Steps.{
  Tracks, Described, Recovered, write_described-Writes, write_recovery-Writes, ==→eq, written,
}

module _ (md5 : Bytes → Bytes) (digest_size : (xs : Bytes) → length (md5 xs) ≡ 16) where
  -- A file whose packets fit together: each file ID has its description and its checksums, and
  -- the recovery packets are aligned.
  pub record IsWritable (file : File) (main_packet : MainPacket) : Type 0 where
    pub has_main : file.main_packet ≡ some main_packet
    pub main_valid : IsValid main_packet
    pub few_others : length main_packet.non_recovery_set < 2 ^ 50
    pub some_client : 0 < length file.client_id
    pub client_text : IsText file.client_id
    pub short_client : length file.client_id < 2 ^ 60
    pub described :
        All
          (λ id. IsDescribed md5 digest_size file id × (length id ≡ 16))
          (main_packet.recovery_set ++ main_packet.non_recovery_set)
    pub recovery :
        (e : ℕ) (data_bytes : Bytes)
        → lookup ◌==◌ e file.recovery_packets ≡ some data_bytes
        → (e < 2 ^ 16)
          × (0 < length data_bytes)
          × (length data_bytes % 4 ≡ 0)
          × (length data_bytes < 2 ^ 60)
    pub no_others : file.unknown_packets ≡ []

  All-IsRecovery :
      (file : File) (main_packet : MainPacket) (es : List ℕ)
      → IsWritable file main_packet
      → ((e : ℕ) → Mem e es → Mem e (sort_ints (exponents file.recovery_packets)))
      → All (IsRecovery md5 digest_size file) es
  All-IsRecovery file main_packet [] h member = tt
  All-IsRecovery file main_packet (e ∷ es) h member =
      let (data_bytes, found) = sorted-found e file.recovery_packets (member e (inl refl)) in
      let (small, some_data, aligned, short) = h.recovery e data_bytes found in
      (
        record {
          data_bytes = data_bytes;
          has_data = found;
          is_uint16 = small;
          some_data = some_data;
          aligned = aligned;
          short = short;
        },
        All-IsRecovery file main_packet es h (λ j m. member j (inr m)),
      )

  -- The state after the creator packet and the main packet.
  abbrev begun : File → MainPacket → Bytes → Found
  begun file main_packet set_id = record (nothing_found (some set_id)) {
    found_packet = true;
    client_id = some file.client_id;
    main_packet = some main_packet;
  }

  begun-Tracks :
      (file : File) (main_packet : MainPacket) (set_id : Bytes) (set_size : length set_id ≡ 16)
      → Tracks md5 digest_size file main_packet set_id set_size (begun file main_packet set_id)
  begun-Tracks file main_packet set_id set_size = record {
    known = refl;
    any = refl;
    client = refl;
    main = refl;
    descriptions = λ k v e. absurd cc;
    checksums = λ k v e. absurd cc;
    recovery = λ k v e. absurd cc;
  }

  handle-begun :
      (file : File) (main_packet : MainPacket) (set_id creator_body main_body : Bytes)
      → read_creator_packet creator_body ≡ file.client_id
      → read_main_packet main_body ≡ ok main_packet
      → handle_packets md5
          (nothing_found none)
          set_id
          ((creator_packet_type, creator_body) ∷ ((main_packet_type, main_body) ∷ []))
        ≡ ok (begun file main_packet set_id)
  unfolding handle_packet load_packet load_creator load_main
  handle-begun file main_packet set_id creator_body main_body e1 e2 =
      rw (same_bytes_refl set_id, e1, e2) refl

  -- What is read back has the client ID, the main packet, the description and the checksums of
  -- each file, and the recovery packets.
  pub record IsReadBack (file : File) (main_packet : MainPacket) (file' : File) : Type 0 where
    pub client : file'.client_id ≡ file.client_id
    pub main : file'.main_packet ≡ some main_packet
    pub descriptions :
        (id : Bytes)
        → Mem id (main_packet.recovery_set ++ main_packet.non_recovery_set)
        → lookup same_bytes id file'.file_description_packets
          ≡ lookup same_bytes id file.file_description_packets
    pub checksums :
        (id : Bytes)
        → Mem id (main_packet.recovery_set ++ main_packet.non_recovery_set)
        → lookup same_bytes id file'.ifsc_packets ≡ lookup same_bytes id file.ifsc_packets
    pub recovery :
        (e : ℕ) → lookup ◌==◌ e file'.recovery_packets ≡ lookup ◌==◌ e file.recovery_packets

  finish-IsReadBack :
      (file : File) (main_packet : MainPacket) (set_id : Bytes) (set_size : length set_id ≡ 16)
      (s : Found)
      → Tracks md5 digest_size file main_packet set_id set_size s
      → ((id : Bytes)
          → Mem id (main_packet.recovery_set ++ main_packet.non_recovery_set)
          → Described md5 digest_size file main_packet set_id set_size s id)
      → ((e : ℕ)
          → Mem e (sort_ints (exponents file.recovery_packets))
          → Recovered md5 digest_size file main_packet set_id set_size s e)
      → (file' : File) × (finish_file s ≡ ok (set_id, file')) × IsReadBack file main_packet file'
  unfolding finish_file
  finish-IsReadBack file main_packet set_id set_size s t described recovered = (
    record {
      client_id = file.client_id;
      main_packet = s.main_packet;
      file_description_packets = s.file_description_packets;
      ifsc_packets = s.ifsc_packets;
      recovery_packets = s.recovery_packets;
      unknown_packets = s.unknown_packets;
    },
    rw (t.any, t.client, t.known) refl,
    record {
      client = refl;
      main = t.main;
      descriptions = λ id m. (described id m).0;
      checksums = λ id m. (described id m).1;
      recovery = λ e.
          Within-lookup ◌==◌ ==_refl ==→eq s.recovery_packets file.recovery_packets e t.recovery
            (λ v found. recovered e (found-sorted e v file.recovery_packets found));
    },
  )

  write_set-ok :
      (file : File) (main_packet : MainPacket) (b1 b2 buf1 buf2 buf3 out : Bytes)
      → let set_id = md5 (pad_packet_bytes b2) in
        write_main_packet main_packet ≡ ok b2
        → write_creator_packet file.client_id ≡ ok b1
        → write_next_packet md5 [] set_id creator_packet_type (pad_packet_bytes b1) ≡ ok buf1
        → write_next_packet md5 buf1 set_id main_packet_type (pad_packet_bytes b2) ≡ ok buf2
        → write_described md5 file set_id buf2
            (main_packet.recovery_set ++ main_packet.non_recovery_set)
          ≡ ok buf3
        → write_recovery md5 file set_id buf3 (sort_ints (exponents file.recovery_packets)) ≡ ok out
        → file.unknown_packets ≡ []
        → write_set md5 file main_packet ≡ ok (set_id, out)
  unfolding write_set write_unknown
  write_set-ok file main_packet b1 b2 buf1 buf2 buf3 out w2 w1 n1 n2 d r no_others =
      bind_step _ _ b2 _ w2 (
        bind_step _ _ b1 _ w1 (
          bind_step _ _ buf1 _ n1 (
            bind_step _ _ buf2 _ n2
              (bind_step _ _ buf3 _ d (bind_step _ _ out _ r (rw no_others refl))))))

  write_file-ok :
      (file : File) (main_packet : MainPacket) (r : Bytes × Bytes)
      → (not (length file.client_id == 0)) ≡ true
      → file.main_packet ≡ some main_packet
      → write_set md5 file main_packet ≡ ok r
      → write_file md5 file ≡ ok r
  unfolding write_file
  write_file-ok file main_packet r some_client has_main written_set = rw some_client (
      bind_step (find file.main_packet no_main_packet) (write_set md5 file) main_packet r
        (ap (λ o. find o no_main_packet) has_main) written_set)

  -- A file whose packets fit together, and that has no packets of other types, is written without
  -- an error, and readFile reads what is written: the set ID is the one that writeFile returns,
  -- and the client ID, the main packet, the description and checksums of each file and the
  -- recovery packets are those that were written.
  pub read_file-write_file :
      (file : File) (main_packet : MainPacket)
      → IsWritable file main_packet
      → (set_id : Bytes) × (file_bytes : Bytes) × (write_file md5 file ≡ ok (set_id, file_bytes))
        × ((file' : File) × (read_file md5 none file_bytes ≡ some (ok (set_id, file')))
            × IsReadBack file main_packet file')
  unfolding write_packets
  read_file-write_file file main_packet h =
      let (b1, w1, (is_packet1, read1)) =
        creator-IsRead file.client_id h.client_text h.short_client in
      let (b2, w2, (is_packet2, read2)) = main-IsRead main_packet h.main_valid h.few_others in
      let set_id = md5 (pad_packet_bytes b2) in
      let set_size = digest_size (pad_packet_bytes b2) in
      let ids = main_packet.recovery_set ++ main_packet.non_recovery_set in
      let es = sort_ints (exponents file.recovery_packets) in
      let (ps, all_ps, (write_ps, load_ps)) =
        write_described-Writes md5 digest_size file main_packet set_id set_size ids h.described in
      let (qs, all_qs, (write_qs, load_qs)) =
        write_recovery-Writes md5 digest_size file main_packet set_id set_size es
          (All-IsRecovery file main_packet es h (λ e m. m)) in
      let first =
        (creator_packet_type, pad_packet_bytes b1)
        ∷ ((main_packet_type, pad_packet_bytes b2) ∷ []) in
      let all : All IsPacket (first ++ (ps ++ qs)) =
        (is_packet1, (is_packet2, All-append md5 set_id ps qs all_ps all_qs)) in
      let (s1, e1, (k1, d1)) =
        load_ps (begun file main_packet set_id) (begun-Tracks file main_packet set_id set_size) in
      let (s2, e2, (k2, d2)) = load_qs s1 k1.tracks in
      let (out, made, read) =
        read_file-write_packets md5 digest_size set_id set_size (first ++ (ps ++ qs)) none all in
      let (file', finished, good) =
        finish-IsReadBack file main_packet set_id set_size s2 k2.tracks
          (λ id m. (k2.description id (d1 id m).0, k2.checksum id (d1 id m).1)) d2 in
      let (out1, written1) =
        written md5 digest_size file main_packet set_id set_size creator_packet_type
          (pad_packet_bytes b1) is_packet1 in
      let (out2, written2) =
        written md5 digest_size file main_packet set_id set_size main_packet_type
          (pad_packet_bytes b2) is_packet2 in
      let buf2 = ([] ++ out1) ++ out2 in
      let began : write_packets md5 [] set_id (first ++ (ps ++ qs))
          ≡ write_packets md5 buf2 set_id (ps ++ qs) =
        rw (written1 [], written2 ([] ++ out1)) refl in
      let (buf3, (made1, made2)) =
        bind-ok (write_packets md5 buf2 set_id ps) (λ b. write_packets md5 b set_id qs) out
          (sym (began ∙ write_packets-append md5 set_id ps qs buf2) ∙ made) in
      let some_client : (not (length file.client_id == 0)) ≡ true = ground (arith, h.some_client) in
      let handled : handle_packets md5 (nothing_found none) set_id (first ++ (ps ++ qs)) ≡ ok s2 =
        handle_packets-append md5 set_id first (ps ++ qs) (nothing_found none)
        ∙ ap (λ r. r >>= λ s'. handle_packets md5 s' set_id (ps ++ qs))
            (handle-begun file main_packet set_id (pad_packet_bytes b1) (pad_packet_bytes b2) read1
              read2)
        ∙ handle_packets-append md5 set_id ps qs (begun file main_packet set_id)
        ∙ ap (λ r. r >>= λ s'. handle_packets md5 s' set_id qs) e1
        ∙ e2 in
      (
        set_id,
        out,
        write_file-ok file main_packet _ some_client h.has_main (
            write_set-ok file main_packet b1 b2 ([] ++ out1) buf2 buf3 out w2 w1 (written1 [])
              (written2 ([] ++ out1)) (write_ps buf2 ∙ made1) (write_qs buf3 ∙ made2) h.no_others),
        (file', read ∙ ap some (ap (λ r. r >>= finish_file) handled ∙ finished), good),
      )
