-- ===== src/Par2/FileDescriptionPacket.antt =====
-- par2/file_description_packet.go: a file's ID, hashes, length and name.
use gopar.Common.{
  ℕ, ◌+◌, ◌-◌, ◌^◌, ◌≡◌, ◌<◌, ap, ◌==◌, ltb, leb, not, true, false, [], ◌++◌, length, take, drop,
  replicate, arith, some, take-append, drop-append, length-append,
}
use gopar.Common.Bytes.{
  Bytes, put_le, get_le, get_le-put_le, same_bytes, same_bytes_refl, Result, ok, ◌>>=◌, ◌>>◌, guard,
  guard-then, then-ok, ok-injective,
}
use mathlib.Core.List.{append_assoc}
use gopar.Par2.Strings.{
  null_terminate, decode_null_padded_ascii_string, encode_ascii_string, IsText,
  null_terminate-padded, encode_text, decode_padded,
}
use gopar.Par2.Filename.{check_filename, is_abs, split_path}
use gopar.Par2.Filename.Inside.{walk, check_filename-inside}
use mathlib.Core.Path.{subst}
use gopar.Par2.Error.{
  Error, eof, unexpected_eof, file_id_mismatch, empty_file, file_too_big, invalid_byte_count,
}

-- The byte count is an int that is not negative.
pub record FileDescriptionPacket : Type 0 where
  pub hash : Bytes
  pub sixteen_k_hash : Bytes
  pub byte_count : ℕ
  pub filename : Bytes

abbrev pub size_of_file_description_header : ℕ
size_of_file_description_header = 56

abbrev pub max_file_size : ℕ
max_file_size = 2 ^ 63 - 1

module _ (md5 : Bytes → Bytes) where
  unfoldable pub compute_file_id : Bytes → ℕ → Bytes → Bytes
  compute_file_id sixteen_k_hash byte_count filename_bytes =
      md5 (sixteen_k_hash ++ (put_le 8 byte_count ++ filename_bytes))

  unfoldable pub read_file_description_packet : Bytes → Result Error (Bytes × FileDescriptionPacket)
  read_file_description_packet body = do
    guard (not (length body == 0)) eof
    guard (leb size_of_file_description_header (length body)) unexpected_eof
    let file_id = take 16 body
    let hash = take 16 (drop 16 body)
    let sixteen_k_hash = take 16 (drop 16 (drop 16 body))
    let rest = drop 16 (drop 16 (drop 16 body))
    let byte_count = get_le (take 8 rest)
    let filename_bytes = drop 8 rest
    guard
        (same_bytes (compute_file_id sixteen_k_hash byte_count (null_terminate filename_bytes))
          file_id)
        file_id_mismatch
    guard (not (byte_count == 0)) empty_file
    let filename = decode_null_padded_ascii_string filename_bytes
    check_filename filename
    guard (not (ltb max_file_size byte_count)) file_too_big
    ok (
      file_id,
      record {
        hash = hash;
        sixteen_k_hash = sixteen_k_hash;
        byte_count = byte_count;
        filename = filename;
      },
    )

  unfoldable pub write_file_description_packet : Bytes → FileDescriptionPacket → Result Error Bytes
  write_file_description_packet file_id packet = do
    guard (not (packet.byte_count == 0)) invalid_byte_count
    check_filename packet.filename
    filename_bytes ← encode_ascii_string packet.filename
    guard
        (same_bytes (compute_file_id packet.sixteen_k_hash packet.byte_count filename_bytes)
          file_id)
        file_id_mismatch
    ok (
        file_id
        ++ (packet.hash
            ++ (packet.sixteen_k_hash ++ (put_le 8 packet.byte_count ++ filename_bytes))))

-- A description that can be written and read: its hashes are arrays, its length is positive and
-- an int, and its name is accepted and holds ASCII bytes other than null.
pub record IsValid (p : FileDescriptionPacket) : Type 0 where
  pub hash_size : length p.hash ≡ 16
  pub sixteen_k_hash_size : length p.sixteen_k_hash ≡ 16
  pub some_bytes : 0 < p.byte_count
  pub is_int : p.byte_count < 2 ^ 63
  pub is_text : IsText p.filename
  pub accepted : check_filename p.filename ≡ ok tt

module _ (md5 : Bytes → Bytes) (digest_size : (xs : Bytes) → length (md5 xs) ≡ 16) where
  length-compute_file_id :
      (sixteen_k_hash : Bytes) (byte_count : ℕ) (filename_bytes : Bytes)
      → length (compute_file_id md5 sixteen_k_hash byte_count filename_bytes) ≡ 16
  unfolding compute_file_id
  length-compute_file_id sixteen_k_hash byte_count filename_bytes =
      digest_size (sixteen_k_hash ++ (put_le 8 byte_count ++ filename_bytes))

  -- A valid description is written without an error under the ID that is computed from it, and
  -- is read back with this ID, with any padding of null bytes behind it.
  pub read_file_description_packet-write_file_description_packet :
      (p : FileDescriptionPacket) (padding : ℕ)
      → IsValid p
      → let file_id = compute_file_id md5 p.sixteen_k_hash p.byte_count p.filename in
        (body : Bytes) × (write_file_description_packet md5 file_id p ≡ ok body)
        × (read_file_description_packet md5 (body ++ replicate padding 0) ≡ ok (file_id, p))
  unfolding write_file_description_packet read_file_description_packet
  read_file_description_packet-write_file_description_packet p padding v =
      let file_id = compute_file_id md5 p.sixteen_k_hash p.byte_count p.filename in
      let id_size : length file_id ≡ 16 =
        length-compute_file_id p.sixteen_k_hash p.byte_count p.filename in
      let count = put_le 8 p.byte_count in
      let padded = p.filename ++ replicate padding 0 in
      let tail3 = count ++ padded in
      let tail2 = p.sixteen_k_hash ++ tail3 in
      let tail1 = p.hash ++ tail2 in
      let body = file_id ++ (p.hash ++ (p.sixteen_k_hash ++ (count ++ p.filename))) in
      let bracketed : body ++ replicate padding 0 ≡ file_id ++ tail1 = simp append_assoc in
      let size : length (file_id ++ tail1) ≡ 56 + length padded =
        simp (length-append) (omega (arith, v, id_size)) in
      let some_bytes : (not (p.byte_count == 0)) ≡ true = ground arith in
      let not_empty : (not (length (file_id ++ tail1) == 0)) ≡ true = ground arith in
      let long : leb 56 (length (file_id ++ tail1)) ≡ true = ground arith in
      let is_int : (not (ltb max_file_size p.byte_count)) ≡ true = ground arith in
      let same = same_bytes_refl file_id in
      (
        body,
        rw (some_bytes, v.accepted, encode_text p.filename v.is_text, same),
        rw (
          bracketed,
          not_empty,
          long,
          take-append 16 file_id tail1 id_size,
          drop-append 16 file_id tail1 id_size,
          take-append 16 p.hash tail2 v.hash_size,
          drop-append 16 p.hash tail2 v.hash_size,
          take-append 16 p.sixteen_k_hash tail3 v.sixteen_k_hash_size,
          drop-append 16 p.sixteen_k_hash tail3 v.sixteen_k_hash_size,
          get_le-put_le 8 p.byte_count (omega (arith, v)),
          null_terminate-padded p.filename padding v.is_text,
          same,
          some_bytes,
          decode_padded p.filename padding v.is_text,
          v.accepted,
          is_int,
        ),
      )

  -- The bytes of a valid description, and how many they are.
  pub write_file_description_packet-bytes :
      (p : FileDescriptionPacket)
      → IsValid p
      → let file_id = compute_file_id md5 p.sixteen_k_hash p.byte_count p.filename in
        (body : Bytes) × (write_file_description_packet md5 file_id p ≡ ok body)
        × (length body ≡ 56 + length p.filename)
  unfolding write_file_description_packet
  write_file_description_packet-bytes p v =
      let file_id = compute_file_id md5 p.sixteen_k_hash p.byte_count p.filename in
      let id_size : length file_id ≡ 16 =
        length-compute_file_id p.sixteen_k_hash p.byte_count p.filename in
      let some_bytes : (not (p.byte_count == 0)) ≡ true = ground arith in
      (
        file_id ++ (p.hash ++ (p.sixteen_k_hash ++ (put_le 8 p.byte_count ++ p.filename))),
        rw (some_bytes, v.accepted, encode_text p.filename v.is_text, same_bytes_refl file_id),
        simp (length-append) (omega (arith, v, id_size)),
      )

-- Every description that is read names a file inside the directory, by a path that is not
-- absolute and never leads out of it, and has a length that is positive and an int.
pub read_file_description_packet-inside :
    (md5 : Bytes → Bytes) (body file_id : Bytes) (p : FileDescriptionPacket)
    → read_file_description_packet md5 body ≡ ok (file_id, p)
    → (is_abs p.filename ≡ false)
      × (((n : ℕ) × (walk 0 (split_path [] p.filename) ≡ some n))
          × ((0 < p.byte_count) × (p.byte_count < 2 ^ 63)))
unfolding read_file_description_packet
read_file_description_packet-inside md5 body file_id p e =
    let id = take 16 body in
    let sixteen_k_hash = take 16 (drop 16 (drop 16 body)) in
    let rest = drop 16 (drop 16 (drop 16 body)) in
    let count = get_le (take 8 rest) in
    let name = decode_null_padded_ascii_string (drop 8 rest) in
    let computed = compute_file_id md5 sixteen_k_hash count (null_terminate (drop 8 rest)) in
    let read : FileDescriptionPacket = record {
      hash = take 16 (drop 16 body);
      sixteen_k_hash = sixteen_k_hash;
      byte_count = count;
      filename = name;
    } in
    let (g1, e1) = guard-then (not (length body == 0)) eof _ (file_id, p) e in
    let (g2, e2) =
      guard-then (leb size_of_file_description_header (length body)) unexpected_eof _ (file_id, p)
        e1 in
    let (g3, e3) = guard-then (same_bytes computed id) file_id_mismatch _ (file_id, p) e2 in
    let (g4, e4) = guard-then (not (count == 0)) empty_file _ (file_id, p) e3 in
    let (g5, e5) = then-ok (check_filename name) _ (file_id, p) e4 in
    let (g6, e6) = guard-then (not (ltb max_file_size count)) file_too_big _ (file_id, p) e5 in
    let same : read ≡ p = ap (λ q. q.1) (ok-injective (id, read) (file_id, p) e6) in
    let (relative, inside) = check_filename-inside name g5 in
    subst
      (λ (q : FileDescriptionPacket).
        (is_abs q.filename ≡ false)
        × (((n : ℕ) × (walk 0 (split_path [] q.filename) ≡ some n))
            × ((0 < q.byte_count) × (q.byte_count < 2 ^ 63))))
      same (relative, (inside, (ground arith, ground arith)))
