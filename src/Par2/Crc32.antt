-- ===== src/Par2/Crc32.antt =====
-- par2/crc32.go: the CRC32 of a window that slides over a file. crc32.ChecksumIEEE and IEEETable are
-- those of Go's standard library. A uint32 is a number below 2 ^ 32, and an array is the function
-- from its indices.
pub mod Linear
pub mod Window
use gopar.Common.{
  ℕ, zero, suc, ◌+◌, ◌*◌, ◌/◌, ◌%◌, ◌^◌, bit_xor, ◌==◌, ltb, if◌then◌else◌, Option, none, some,
  List, [], ◌∷◌, set, replicate,
}
use gopar.Common.Bytes.{Bytes}

-- A bit of the CRC, with the reversed polynomial of IEEE 802.3.
unfoldable pub crc_bit : ℕ → ℕ
crc_bit c = bit_xor (c / 2) (c % 2 * 0xedb88320)

unfoldable pub ieee_table : ℕ → ℕ
ieee_table b = crc_bit (crc_bit (crc_bit (crc_bit (crc_bit (crc_bit (crc_bit (crc_bit b)))))))

unfoldable pub crc_step : ℕ → ℕ → ℕ
crc_step crc b = bit_xor (ieee_table (bit_xor (crc % 256) b)) (crc / 256)

unfoldable pub run : ℕ → Bytes → ℕ
run crc [] = crc
run crc (b ∷ bs) = run (crc_step crc b) bs

abbrev pub all_ones : ℕ
all_ones = 0xffffffff

-- ^x of a uint32.
abbrev pub complement : ℕ → ℕ
complement x = bit_xor all_ones x

unfoldable pub checksum_ieee : Bytes → ℕ
checksum_ieee bs = complement (run (complement 0) bs)

pub record Crc32Window : Type 0 where
  pub window_size : ℕ
  pub crc_old_leader_masked_table : ℕ → ℕ

module _ (window_size : ℕ) where
  -- The bytes that newCRC32Window writes its values in.
  abbrev pub zeros : Bytes
  zeros = replicate (window_size + 1) 0

  unfoldable pub crc_zeros : ℕ
  crc_zeros = checksum_ieee zeros

  unfoldable pub crc_window_mask : ℕ
  crc_window_mask = checksum_ieee (set (set zeros 0 0xff) 4 0xff)

  unfoldable pub base_table : ℕ → ℕ
  base_table i = checksum_ieee (set zeros 0 (2 ^ i))

  -- The loop over the bits of `i`, with `count` of them left, at the bit `j`.
  unfoldable pub crc_of_bits : ℕ → ℕ → ℕ → ℕ → ℕ → ℕ × ℕ
  crc_of_bits i zero j crc crc_count = (crc, crc_count)
  crc_of_bits i (suc count) j crc crc_count =
      if i / 2 ^ j % 2 == 1
      then crc_of_bits i count (j + 1) (bit_xor crc (base_table j)) (crc_count + 1)
      else crc_of_bits i count (j + 1) crc crc_count

  -- The CRC that the loop gives, with that of zeros added for an even number of bits.
  unfoldable pub crc_of_leader : ℕ → ℕ
  crc_of_leader i =
      let (crc, crc_count) = crc_of_bits i 8 0 0 0 in
      if crc_count % 2 == 0 then bit_xor crc crc_zeros else crc

  unfoldable pub masked_table : ℕ → ℕ
  masked_table zero = bit_xor crc_zeros crc_window_mask
  masked_table (suc i) = bit_xor (crc_of_leader (suc i)) crc_window_mask

-- The longest slice of bytes that Go allocates on a 64-bit system; a longer one panics.
abbrev pub max_alloc : ℕ
max_alloc = 2 ^ 48

-- `none` is the panic of a window that is too small, or of a slice that is too long.
unfoldable pub new_crc32_window : ℕ → Option Crc32Window
new_crc32_window window_size =
    if ltb window_size 4
    then none
    else if ltb max_alloc (window_size + 1)
    then none
    else some (record {
      window_size = window_size;
      crc_old_leader_masked_table = masked_table window_size;
    })

unfoldable pub update : Crc32Window → ℕ → ℕ → ℕ → ℕ
update w crc old_leader new_trailer =
    let t = complement crc in
    let t' = bit_xor (ieee_table (bit_xor (t % 256) new_trailer)) (t / 256) in
    bit_xor (complement t') (w.crc_old_leader_masked_table old_leader)
