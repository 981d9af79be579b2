-- ===== src/Par2/DataFile/Shards.antt =====
-- The data shards of a file are the file, padded.
use gopar.Common.{
  ℕ, ◌+◌, ◌-◌, ◌<◌, ◌≤◌, ◌≡◌, ◌∙◌, ltb, List, [], length, take, drop, replicate, Bool-cases, inl,
  inr, arith, length-append, length-take, length-drop, length-replicate,
}
use gopar.Common.Bytes.{Bytes}
use gopar.Par2.DataFile.{slice_and_pad_byte_array}

pub length-slice_and_pad_byte_array :
    (bs : Bytes) (start size : ℕ)
    → start ≤ length bs
    → length (slice_and_pad_byte_array bs start (start + size)) ≡ size
unfolding slice_and_pad_byte_array
length-slice_and_pad_byte_array bs start size h =
    elim (Bool-cases (ltb (length bs) (start + size))) [
      | inl past ↦
          let over : length bs < start + size = ground arith in
          rw past (
            length-append (take (length bs - start) (drop start bs))
              (replicate (start + size - length bs) 0)
            ∙ omega (
              arith,
              length-take (length bs - start) (drop start bs),
              length-drop start bs,
              length-replicate {A = ℕ} (start + size - length bs) 0,
            ))
      | inr inside ↦
          let under : start + size ≤ length bs = ground arith in
          rw inside (
            length-append (take (start + size - start) (drop start bs)) []
            ∙ omega
                (arith, length-take (start + size - start) (drop start bs), length-drop start bs))
    ]
