-- ===== src/Par2/MainPacket/RoundTrip.antt =====
-- A main packet is valid exactly when it can be written and read.
use mathlib.Core.Path.{ap₂}
use gopar.Common.{
  ℕ, ◌+◌, ◌*◌, ◌/◌, ◌%◌, ◌^◌, ◌≡◌, ◌<◌, refl, sym, ap, ◌∙◌, ◌==◌, ltb, leb, not, ◌||◌, true, List,
  [], ◌∷◌, ◌++◌, length, All, arith, take-append, drop-append, length-append,
}
use gopar.Common.Bytes.{
  Bytes, put_le, get_le, get_le-put_le, ok, chunks, join, HaveSize, length-join, chunks-join,
  join-append,
}
use gopar.Par2.MainPacket.Order.{IsId, Ascending, Ascending→slice_is_sorted}
use gopar.Par2.MainPacket.{
  check_file_id_sets_sorted, MainPacket, read_main_packet, write_main_packet, max_int, max_uint32,
}

pub record IsValid (p : MainPacket) : Type 0 where
  pub some_bytes : 0 < p.slice_byte_count
  pub is_int : p.slice_byte_count < 2 ^ 63
  pub aligned : p.slice_byte_count % 4 ≡ 0
  pub some_ids : 0 < length p.recovery_set
  pub few_ids : length p.recovery_set < 2 ^ 32
  pub ids : All IsId p.recovery_set
  pub other_ids : All IsId p.non_recovery_set
  pub ascending : Ascending p.recovery_set
  pub others_ascending : Ascending p.non_recovery_set

HaveSize-IsId : (xss : List Bytes) → All IsId xss → HaveSize 16 xss
HaveSize-IsId [] h = tt
HaveSize-IsId (xs ∷ xss) h = (h.0.0, HaveSize-IsId xss h.1)

All-append : (xss yss : List Bytes) → All IsId xss → All IsId yss → All IsId (xss ++ yss)
All-append [] yss h k = k
All-append (xs ∷ xss) yss h k = (h.0, All-append xss yss h.1 k)

check_valid :
    (p : MainPacket)
    → IsValid p
    → check_file_id_sets_sorted p.recovery_set p.non_recovery_set ≡ ok tt
unfolding check_file_id_sets_sorted
check_valid p v = rw (
  Ascending→slice_is_sorted p.recovery_set v.ids v.ascending,
  Ascending→slice_is_sorted p.non_recovery_set v.other_ids v.others_ascending,
)

chunks-written :
    (p : MainPacket)
    → IsValid p
    → let rest = join p.recovery_set ++ join p.non_recovery_set in
      (length rest ≡ (length p.recovery_set + length p.non_recovery_set) * 16)
      × (chunks 16 (length rest / 16) rest ≡ p.recovery_set ++ p.non_recovery_set)
chunks-written p v =
    let all = All-append p.recovery_set p.non_recovery_set v.ids v.other_ids in
    let sized = HaveSize-IsId (p.recovery_set ++ p.non_recovery_set) all in
    let joined = join-append p.recovery_set p.non_recovery_set in
    let size : length (join p.recovery_set ++ join p.non_recovery_set)
        ≡ (length p.recovery_set + length p.non_recovery_set) * 16 =
      ap length (sym joined)
      ∙ length-join 16 (p.recovery_set ++ p.non_recovery_set) sized
      ∙ ap (λ (n : ℕ). n * 16) (length-append p.recovery_set p.non_recovery_set) in
    let count : length (join p.recovery_set ++ join p.non_recovery_set) / 16
        ≡ length (p.recovery_set ++ p.non_recovery_set) =
      omega (arith, size, length-append p.recovery_set p.non_recovery_set) in
    (
      size,
      ap₂ (chunks 16) count (sym joined)
          ∙ chunks-join 16 (p.recovery_set ++ p.non_recovery_set) sized,
    )

-- The bytes of a valid main packet, and how many they are.
pub write_main_packet-bytes :
    (p : MainPacket)
    → IsValid p
    → (body : Bytes) × (write_main_packet p ≡ ok body)
      × (length body ≡ 12 + (length p.recovery_set + length p.non_recovery_set) * 16)
unfolding write_main_packet
write_main_packet-bytes p v =
    let n = p.slice_byte_count in
    let c = length p.recovery_set in
    let rest = join p.recovery_set ++ join p.non_recovery_set in
    let checked = check_valid p v in
    let (size, ids) = chunks-written p v in
    let some_bytes : (not (n == 0 || not (n % 4 == 0))) ≡ true = ground arith in
    let some_ids : (not (c == 0)) ≡ true = ground arith in
    let few_ids : (not (ltb max_uint32 c)) ≡ true = ground arith in
    (
      put_le 8 n ++ (put_le 4 c ++ rest),
      rw (some_bytes, some_ids, few_ids, checked) refl,
      omega (arith, size),
    )

-- A valid main packet is written without an error, and is read back as it was.
pub read_main_packet-write_main_packet :
    (p : MainPacket)
    → IsValid p
    → (body : Bytes) × (write_main_packet p ≡ ok body) × (read_main_packet body ≡ ok p)
unfolding read_main_packet write_main_packet
read_main_packet-write_main_packet p v =
    let n = p.slice_byte_count in
    let c = length p.recovery_set in
    let rest = join p.recovery_set ++ join p.non_recovery_set in
    let body = put_le 8 n ++ (put_le 4 c ++ rest) in
    let checked = check_valid p v in
    let (size, ids) = chunks-written p v in
    let some_bytes : (not (n == 0 || not (n % 4 == 0))) ≡ true = ground arith in
    let some_ids : (not (c == 0)) ≡ true = ground arith in
    let few_ids : (not (ltb max_uint32 c)) ≡ true = ground arith in
    let n_kept : get_le (put_le 8 n) ≡ n = get_le-put_le 8 n (omega arith) in
    let c_kept : get_le (put_le 4 c) ≡ c = get_le-put_le 4 c (omega arith) in
    let not_empty : (not (length body == 0)) ≡ true = ground arith in
    let long : leb 12 (length body) ≡ true = ground arith in
    let is_int : (not (n == 0 || (not (n % 4 == 0) || ltb max_int n))) ≡ true = ground arith in
    let fit : (length rest % 16 == 0) ≡ true = ground arith in
    let enough : (not (ltb (length (p.recovery_set ++ p.non_recovery_set)) c)) ≡ true =
      ground (arith, length-append p.recovery_set p.non_recovery_set) in
    (
      body,
      rw (some_bytes, some_ids, few_ids, checked),
      rw (
        not_empty,
        long,
        n_kept,
        is_int,
        c_kept,
        some_ids,
        fit,
        ids,
        enough,
        take-append c p.recovery_set p.non_recovery_set refl,
        drop-append c p.recovery_set p.non_recovery_set refl,
        checked,
      ),
    )
