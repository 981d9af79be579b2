-- ===== src/Par2/MainPacket/Valid.antt =====
-- What readMainPacket accepts is valid.
use mathlib.Core.Path.{subst}
use gopar.Common.{
  ℕ, suc, zero, ◌*◌, ◌/◌, ◌%◌, ◌^◌, ◌≡◌, ◌<◌, ◌≤◌, ◌==◌, ltb, leb, not, ◌||◌, length, take, drop,
  All, All-take, All-drop, arith, length-take, length-drop,
}
use gopar.Common.Bytes.{
  AreBytes, Bytes, get_le, ok, then-ok, guard-then, guard-ok, ok-injective, chunks,
}
use gopar.Par2.MainPacket.Order.{IsId, slice_is_sorted→Ascending, get_le-take_bound}
use gopar.Par2.MainPacket.{
  slice_is_sorted, check_file_id_sets_sorted, MainPacket, read_main_packet, max_int,
}
use gopar.Par2.Error.{
  eof, unexpected_eof, invalid_slice_size, empty_recovery_set, invalid_size, not_enough_file_ids,
  recovery_set_not_sorted, non_recovery_set_not_sorted,
}
use gopar.Par2.MainPacket.RoundTrip.{IsValid}

chunks-IsId : (n : ℕ) (bs : Bytes) → n * 16 ≤ length bs → AreBytes bs → All IsId (chunks 16 n bs)
chunks-IsId zero bs h k = tt
chunks-IsId (suc n) bs h k = (
  (omega (arith, length-take 16 bs), All-take _ 16 bs k),
  chunks-IsId n (drop 16 bs) (omega (arith, length-drop 16 bs)) (All-drop _ 16 bs k),
)

-- Every packet that is read has a slice byte count that is positive, aligned and an int, and its
-- sets of file IDs go up, the recovery set not being empty.
pub read_main_packet-IsValid :
    (body : Bytes) (p : MainPacket) → AreBytes body → read_main_packet body ≡ ok p → IsValid p
unfolding read_main_packet check_file_id_sets_sorted
read_main_packet-IsValid body p bytes e =
    let n = get_le (take 8 body) in
    let c = get_le (take 4 (drop 8 body)) in
    let buf = drop 12 body in
    let file_ids = chunks 16 (length buf / 16) buf in
    let read : MainPacket = record {
      slice_byte_count = n;
      recovery_set = take c file_ids;
      non_recovery_set = drop c file_ids;
    } in
    let (g1, e1) = guard-then (not (length body == 0)) eof _ p e in
    let (g2, e2) = guard-then (leb 12 (length body)) unexpected_eof _ p e1 in
    let (g3, e3) =
      guard-then (not (n == 0 || (not (n % 4 == 0) || ltb max_int n))) invalid_slice_size _ p e2 in
    let (g4, e4) = guard-then (not (c == 0)) empty_recovery_set _ p e3 in
    let (g5, e5) = guard-then (length buf % 16 == 0) invalid_size _ p e4 in
    let (g6, e6) = guard-then (not (ltb (length file_ids) c)) not_enough_file_ids _ p e5 in
    let (g7, e7) = then-ok (check_file_id_sets_sorted (take c file_ids) (drop c file_ids)) _ p e6 in
    let (g8, g9) = guard-then (slice_is_sorted (take c file_ids)) recovery_set_not_sorted _ tt g7 in
    let same : read ≡ p = ok-injective read p e7 in
    let g10 = guard-ok (slice_is_sorted (drop c file_ids)) non_recovery_set_not_sorted g9 in
    let all : All IsId file_ids =
      chunks-IsId (length buf / 16) buf (omega arith) (All-drop _ 12 body bytes) in
    let ids = All-take IsId c file_ids all in
    let other_ids = All-drop IsId c file_ids all in
    let small : c < 2 ^ 32 = get_le-take_bound 4 (drop 8 body) (All-drop _ 8 body bytes) in
    subst (λ q. IsValid q) same
      (record {
        some_bytes = ground arith;
        is_int = ground arith;
        aligned = ground arith;
        some_ids = ground (arith, length-take c file_ids);
        few_ids = omega (arith, length-take c file_ids);
        ids = ids;
        other_ids = other_ids;
        ascending = slice_is_sorted→Ascending _ ids g8;
        others_ascending = slice_is_sorted→Ascending _ other_ids g10;
      })
