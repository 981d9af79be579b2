-- ===== src/Par2/Decoder/Load/Places.antt =====
-- The places that the map from checksums to places gives lie in the files that are decoded.
use gopar.Common.{
  ℕ, zero, suc, ◌+◌, ◌*◌, ◌/◌, ◌<◌, ◌≤◌, ◌≡◌, ◌∙◌, ap, refl, ◌==◌, ltb, Bool, true, some, List, [],
  ◌∷◌, length, get_or, set, lookup, insert, All, arith, Bool-cases, inl, inr, length-set,
}
use native.Mathlib.Nat.{mul-div_cancel}
use gopar.Common.Bytes.{Bytes, same_bytes, get_le}
use gopar.Par2.IfscPacket.{ChecksumPair}
use gopar.Par2.Decoder.{
  InputFileInfo, ShardLocation, has_location, add_location, no_shard, FileIntegrityInfo,
  LocationMap,
}
use gopar.Par2.Decoder.Locations.{
  or_none, put, get, put_pairs, put_infos, make_checksum_shard_location_map,
}
use gopar.Par2.Decoder.Load.{or_zero, no_file, found_shard, store, store_all}

-- The counts of the shards of each file.
abbrev pub shard_counts_of : List FileIntegrityInfo → List ℕ
shard_counts_of [] = []
shard_counts_of (info ∷ infos) = length info.shard_infos ∷ shard_counts_of infos

length-shard_counts_of :
    (infos : List FileIntegrityInfo) → length (shard_counts_of infos) ≡ length infos
length-shard_counts_of [] = refl
length-shard_counts_of (info ∷ infos) = ap suc (length-shard_counts_of infos)

get_or-shard_counts_of :
    (infos : List FileIntegrityInfo) (i : ℕ)
    → get_or (shard_counts_of infos) i 0 ≡ length (get_or infos i no_file).shard_infos
get_or-shard_counts_of [] i = refl
get_or-shard_counts_of (info ∷ infos) zero = refl
get_or-shard_counts_of (info ∷ infos) (suc i) = get_or-shard_counts_of infos i

shard_counts_of-set :
    (infos : List FileIntegrityInfo) (i : ℕ) (info : FileIntegrityInfo)
    → length info.shard_infos ≡ length (get_or infos i no_file).shard_infos
    → shard_counts_of (set infos i info) ≡ shard_counts_of infos
shard_counts_of-set [] i info h = refl
shard_counts_of-set (old ∷ infos) zero info h = ap (λ n. n ∷ shard_counts_of infos) h
shard_counts_of-set (old ∷ infos) (suc i) info h =
    ap (λ ns. length old.shard_infos ∷ ns) (shard_counts_of-set infos i info h)

lookup-All :
    {K V : Type 0} (same : K → K → Bool) (P : V → Type 0) (k : K) (m : List (K × List V))
    → All (λ e. All P e.1) m
    → All P (or_none (lookup same k m))
lookup-All same P k [] h = tt
lookup-All same P k ((k', vs) ∷ m) h = elim (Bool-cases (same k k')) [
  | inl here ↦ rw here h.0
  | inr there ↦ rw there (lookup-All same P k m h.1)
]

insert-All :
    {K V : Type 0} (same : K → K → Bool) (P : V → Type 0) (k : K) (v : V) (m : List (K × V))
    → P v
    → All (λ e. P e.1) m
    → All (λ e. P e.1) (insert same k v m)
insert-All same P k v [] p h = (p, tt)
insert-All same P k v ((k', v') ∷ m) p h = elim (Bool-cases (same k k')) [
  | inl here ↦ rw here (p, h.1)
  | inr there ↦ rw there (h.0, insert-All same P k v m p h.1)
]

module _ (slice_byte_count : ℕ) (indices : List (Bytes × ℕ)) (counts : List ℕ) where
  -- The file with this ID has a shard of this index.
  abbrev pub HasShard : Bytes → ℕ → Type 0
  HasShard file_id k =
      let i = or_zero (lookup same_bytes file_id indices) in
      (i < length counts) × (k < get_or counts i 0)

  abbrev pub IsPlace : ShardLocation → Type 0
  IsPlace l = HasShard l.file_id (l.start / slice_byte_count)

  abbrev HasPlaces : LocationMap → Type 0
  HasPlaces m = All (λ e. All (λ e'. All IsPlace e'.1) e.1) m

  -- The file has a shard for each of its checksum pairs.
  abbrev pub HasShards : InputFileInfo → Type 0
  HasShards info =
      let i = or_zero (lookup same_bytes info.file_id indices) in
      (i < length counts) × (length info.checksum_pairs ≤ get_or counts i 0)

  put-HasPlaces :
      (m : LocationMap) (crc32 : ℕ) (md5_hash : Bytes) (l : ShardLocation)
      → HasPlaces m
      → IsPlace l
      → HasPlaces (put m crc32 md5_hash l)
  unfolding put add_location
  put-HasPlaces m crc32 md5_hash l h p =
      let by_crc = or_none (lookup ◌==◌ crc32 m) in
      let crc_places = lookup-All ◌==◌ (λ e'. All IsPlace e'.1) crc32 m h in
      let by_md5 = or_none (lookup same_bytes md5_hash by_crc) in
      let md5_places = lookup-All same_bytes IsPlace md5_hash by_crc crc_places in
      let added : All IsPlace (add_location l by_md5) = elim (Bool-cases (has_location l by_md5)) [
        | inl old ↦ rw old md5_places
        | inr new ↦ rw new (p, md5_places)
      ] in
      insert-All ◌==◌ (λ es. All (λ e'. All IsPlace e'.1) es) crc32
        (insert same_bytes md5_hash (add_location l by_md5) by_crc) m
        (insert-All same_bytes (All IsPlace) md5_hash (add_location l by_md5) by_crc added
          crc_places)
        h

  put_pairs-HasPlaces :
      (file_id : Bytes) (i : ℕ) (pairs : List ChecksumPair) (m : LocationMap)
      → 0 < slice_byte_count
      → ((k : ℕ) → k < i + length pairs → HasShard file_id k)
      → HasPlaces m
      → HasPlaces (put_pairs slice_byte_count file_id i pairs m)
  unfolding put_pairs
  put_pairs-HasPlaces file_id i [] m pos shards h = h
  put_pairs-HasPlaces file_id i (pair ∷ pairs) m pos shards h =
      let l : ShardLocation = record { file_id = file_id; start = i * slice_byte_count } in
      let index : i * slice_byte_count / slice_byte_count ≡ i = mul-div_cancel i pos in
      put_pairs-HasPlaces file_id (i + 1) pairs (put m (get_le pair.crc32) pair.md5 l) pos
        (λ k lt. shards k (omega arith))
        (put-HasPlaces m (get_le pair.crc32) pair.md5 l h (rw index (shards i (omega arith))))

  put_infos-HasPlaces :
      (infos : List InputFileInfo) (m : LocationMap)
      → 0 < slice_byte_count
      → All HasShards infos
      → HasPlaces m
      → HasPlaces (put_infos slice_byte_count infos m)
  unfolding put_infos
  put_infos-HasPlaces [] m pos shards h = h
  put_infos-HasPlaces (info ∷ infos) m pos ((file, enough), later) h =
      put_infos-HasPlaces infos (put_pairs slice_byte_count info.file_id 0 info.checksum_pairs m)
        pos later
        (put_pairs-HasPlaces info.file_id 0 info.checksum_pairs m pos (λ k lt. (file, omega arith))
          h)

  -- What the map of LoadFileData gives for a slice are places of the files.
  pub get-IsPlace :
      (md5 : Bytes → Bytes) (recovery_set : List InputFileInfo) (crc32 : ℕ) (slice : Bytes)
      → 0 < slice_byte_count
      → All HasShards recovery_set
      → All IsPlace
          (get md5 (make_checksum_shard_location_map slice_byte_count recovery_set) crc32 slice)
  unfolding get make_checksum_shard_location_map
  get-IsPlace md5 recovery_set crc32 slice pos shards =
      let m = put_infos slice_byte_count recovery_set [] in
      lookup-All same_bytes IsPlace (md5 slice) (or_none (lookup ◌==◌ crc32 m)) (
        lookup-All ◌==◌ (λ e'. All IsPlace e'.1) crc32 m
          (put_infos-HasPlaces recovery_set [] pos shards tt))

  store-some :
      (slice : Bytes) (location found : ShardLocation) (infos : List FileIntegrityInfo)
      → shard_counts_of infos ≡ counts
      → IsPlace found
      → (infos' : List FileIntegrityInfo) × (store slice_byte_count indices slice location found
            infos
          ≡ some infos')
        × (shard_counts_of infos' ≡ counts)
  unfolding store
  store-some slice location found infos shape (file, shard) =
      let i = or_zero (lookup same_bytes found.file_id indices) in
      let k = found.start / slice_byte_count in
      let info = get_or infos i no_file in
      let file_there : ltb i (length infos) ≡ true =
        ground (arith, length-shard_counts_of infos, ap length shape) in
      let shard_there : ltb k (length info.shard_infos) ≡ true =
        ground (arith, get_or-shard_counts_of infos i, ap (λ (ns : List ℕ). get_or ns i 0) shape) in
      let new = found_shard slice location (get_or info.shard_infos k no_shard) in
      (
        _,
        rw (file_there, shard_there) refl,
        shard_counts_of-set infos i (record info { shard_infos = set info.shard_infos k new })
              (length-set info.shard_infos k new)
            ∙ shape,
      )

  pub store_all-some :
      (slice : Bytes) (location : ShardLocation) (found : List ShardLocation)
      (infos : List FileIntegrityInfo)
      → shard_counts_of infos ≡ counts
      → All IsPlace found
      → (infos' : List FileIntegrityInfo) × (store_all slice_byte_count indices slice location found
            infos
          ≡ some infos')
        × (shard_counts_of infos' ≡ counts)
  unfolding store_all
  store_all-some slice location [] infos shape h = (infos, refl, shape)
  store_all-some slice location (l ∷ ls) infos shape (p, later) =
      let (infos1, stored, shape1) = store-some slice location l infos shape p in
      let (infos2, rest, shape2) = store_all-some slice location ls infos1 shape1 later in
      (infos2, rw (stored, store_all) rest, shape2)
