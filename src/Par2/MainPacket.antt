-- ===== src/Par2/MainPacket.antt =====
-- par2/main_packet.go: the body of a main packet.
pub mod Order
pub mod RoundTrip
pub mod Valid
use gopar.Common.{
  ℕ, suc, zero, ◌+◌, ◌-◌, ◌/◌, ◌%◌, ◌^◌, ◌==◌, ltb, leb, if◌then◌else◌, ◌||◌, ◌&&◌, not, Bool, true,
  false, List, [], ◌∷◌, ◌++◌, length, get_or, take, drop,
}
use gopar.Common.Bytes.{Bytes, put_le, get_le, Result, ok, err, ◌>>=◌, ◌>>◌, guard, chunks, join}
use gopar.Par2.Error.{
  Error, eof, unexpected_eof, invalid_slice_size, empty_recovery_set, invalid_size,
  not_enough_file_ids, recovery_set_not_sorted, non_recovery_set_not_sorted,
  invalid_slice_byte_count, recovery_set_too_big,
}

abbrev pub size_of_file_id : ℕ
size_of_file_id = 16

-- The loop of fileIDLess, over the first `i` bytes, from the last of them down.
unfoldable pub file_id_less_below : ℕ → Bytes → Bytes → Bool
file_id_less_below zero id1 id2 = false
file_id_less_below (suc i) id1 id2 =
    let below = file_id_less_below i id1 id2 in
    if ltb (get_or id1 i 0) (get_or id2 i 0)
    then true
    else if ltb (get_or id2 i 0) (get_or id1 i 0)
    then false
    else below

unfoldable pub file_id_less : Bytes → Bytes → Bool
unfolding file_id_less_below
file_id_less id1 id2 = file_id_less_below (length id1) id1 id2

-- The slice byte count is an int that is not negative.
pub record MainPacket : Type 0 where
  pub slice_byte_count : ℕ
  pub recovery_set : List Bytes
  pub non_recovery_set : List Bytes

-- sort.SliceIsSorted with fileIDLess: no element is less than the one before it.
unfoldable pub slice_is_sorted : List Bytes → Bool
slice_is_sorted [] = true
slice_is_sorted (x ∷ []) = true
slice_is_sorted (x ∷ (y ∷ ids)) = not (file_id_less y x) && slice_is_sorted (y ∷ ids)

unfoldable pub check_file_id_sets_sorted : List Bytes → List Bytes → Result Error (Unit {0})
check_file_id_sets_sorted recovery_set non_recovery_set = do
  guard (slice_is_sorted recovery_set) recovery_set_not_sorted
  guard (slice_is_sorted non_recovery_set) non_recovery_set_not_sorted

abbrev pub max_int : ℕ
max_int = 2 ^ 63 - 1

abbrev pub max_uint32 : ℕ
max_uint32 = 2 ^ 32 - 1

unfoldable pub read_main_packet : Bytes → Result Error MainPacket
read_main_packet body = do
  guard (not (length body == 0)) eof
  guard (leb 12 (length body)) unexpected_eof
  let slice_size = get_le (take 8 body)
  let recovery_set_count = get_le (take 4 (drop 8 body))
  let buf = drop 12 body
  guard (not (slice_size == 0 || (not (slice_size % 4 == 0) || ltb max_int slice_size)))
      invalid_slice_size
  guard (not (recovery_set_count == 0)) empty_recovery_set
  guard (length buf % size_of_file_id == 0) invalid_size
  let file_ids = chunks size_of_file_id (length buf / size_of_file_id) buf
  guard (not (ltb (length file_ids) recovery_set_count)) not_enough_file_ids
  check_file_id_sets_sorted (take recovery_set_count file_ids) (drop recovery_set_count file_ids)
  ok (record {
    slice_byte_count = slice_size;
    recovery_set = take recovery_set_count file_ids;
    non_recovery_set = drop recovery_set_count file_ids;
  })

unfoldable pub write_main_packet : MainPacket → Result Error Bytes
write_main_packet packet = do
  guard (not (packet.slice_byte_count == 0 || not (packet.slice_byte_count % 4 == 0)))
      invalid_slice_byte_count
  guard (not (length packet.recovery_set == 0)) empty_recovery_set
  guard (not (ltb max_uint32 (length packet.recovery_set))) recovery_set_too_big
  check_file_id_sets_sorted packet.recovery_set packet.non_recovery_set
  ok (
      put_le 8 packet.slice_byte_count
      ++ (put_le 4 (length packet.recovery_set)
          ++ (join packet.recovery_set ++ join packet.non_recovery_set)))
