-- ===== src/Par2/Crc32/Window.antt =====
-- The CRC32 that update gives is that of the window one byte further on.
use gopar.Common.{
  ℕ, zero, suc, ◌+◌, ◌*◌, ◌/◌, ◌%◌, ◌^◌, ◌<◌, ◌≤◌, ◌≡◌, ◌∙◌, sym, ap, refl, bit_xor, ◌==◌, ltb,
  if◌then◌else◌, true, false, some, [], ◌∷◌, ◌++◌, length, set, replicate, length-append,
  length-replicate, Bool-cases, inl, inr, arith,
}
use mathlib.Core.Path.{ap₂}
use mathlib.Core.Option.{some-injective}
use native.Mathlib.Nat.{
  mod-lt, mod-eq_of_lt, div-add-mod', mul_assoc, add-mul, mul-le-mul_right, mul-add-mod_self_right,
}
use gopar.Common.Bytes.{Bytes}
use gopar.Common.Bits.{
  bit_xor_middle, bit_xor_self, bit_xor-zero, zero-bit_xor, bit_xor_assoc, bit_xor_comm,
  bit_xor_cancel_left, bit_xor-pow_top, pow_pos, pow_add,
}
use gopar.Par2.Crc32.{
  max_alloc, crc_bit, ieee_table, crc_step, run, all_ones, complement, checksum_ieee, Crc32Window,
  zeros, crc_zeros, crc_window_mask, base_table, crc_of_bits, crc_of_leader, masked_table,
  new_crc32_window, update,
}
use gopar.Par2.Crc32.Linear.{crc_step_linear, run_linear, run-append}

-- The run over `n` zeros is linear in the state.
run-zeros_linear :
    (n s s' : ℕ)
    → run (bit_xor s s') (replicate n 0) ≡ bit_xor (run s (replicate n 0)) (run s' (replicate n 0))
run-zeros_linear n s s' =
    run_linear s s' (replicate n 0)
    ∙ ap (λ (k : ℕ). bit_xor (run s (replicate k 0)) (run s' (replicate n 0)))
        (length-replicate n 0)

-- A leading byte in front of `n` zeros, from the state zero.
abbrev leader : ℕ → ℕ → ℕ
leader n i = run (crc_step 0 i) (replicate n 0)

leader_linear : (n i j : ℕ) → leader n (bit_xor i j) ≡ bit_xor (leader n i) (leader n j)
leader_linear n i j =
    ap (λ s. run s (replicate n 0)) (crc_step_linear 0 0 i j)
    ∙ run-zeros_linear n (crc_step 0 i) (crc_step 0 j)

leader-zero : (n : ℕ) → leader n 0 ≡ 0
leader-zero n = leader_linear n 0 0 ∙ bit_xor_self (leader n 0)

-- The CRC of a leading byte in front of zeros.
checksum_ieee-leader :
    (n i : ℕ)
    → checksum_ieee (i ∷ replicate n 0) ≡ bit_xor (checksum_ieee (0 ∷ replicate n 0)) (leader n i)
unfolding checksum_ieee run
checksum_ieee-leader n i =
    let zs = replicate n 0 in
    let step : crc_step all_ones i ≡ bit_xor (crc_step all_ones 0) (crc_step 0 i) =
      ap (crc_step all_ones) (sym (zero-bit_xor i)) ∙ crc_step_linear all_ones 0 0 i in
    ap (λ s. bit_xor all_ones (run s zs)) step
    ∙ ap (bit_xor all_ones) (run-zeros_linear n (crc_step all_ones 0) (crc_step 0 i))
    ∙ sym (bit_xor_assoc all_ones (run (crc_step all_ones 0) zs) (leader n i))

zeros-cons : (n : ℕ) → zeros n ≡ 0 ∷ replicate n 0
zeros-cons n = let e : n + 1 ≡ suc n = omega arith in ap (λ (k : ℕ). replicate k 0) e

module _ (n : ℕ) where
  abbrev c0 : ℕ
  c0 = crc_zeros n

  crc_zeros-leader : c0 ≡ checksum_ieee (0 ∷ replicate n 0)
  unfolding crc_zeros
  crc_zeros-leader = ap checksum_ieee (zeros-cons n)

  base_table-leader : (i : ℕ) → base_table n i ≡ bit_xor c0 (leader n (2 ^ i))
  unfolding base_table
  base_table-leader i =
      ap (λ zs. checksum_ieee (set zs 0 (2 ^ i))) (zeros-cons n)
      ∙ checksum_ieee-leader n (2 ^ i)
      ∙ ap (λ c. bit_xor c (leader n (2 ^ i))) (sym crc_zeros-leader)

  -- The CRC of zeros for an odd count, and nothing for an even one.
  abbrev odd_part : ℕ → ℕ
  odd_part count = if count % 2 == 0 then 0 else c0

  odd_part-suc : (count : ℕ) → odd_part (count + 1) ≡ bit_xor (odd_part count) c0
  odd_part-suc count = elim (Bool-cases (count % 2 == 0)) [
    | inl even ↦
        let odd : ((count + 1) % 2 == 0) ≡ false = ground arith in
        rw (even, odd) (sym (zero-bit_xor c0))
    | inr odd ↦
        let even : ((count + 1) % 2 == 0) ≡ true = ground arith in
        rw (even, odd) (sym (bit_xor_self c0))
  ]

  next_digit : (i j : ℕ) → i % 2 ^ (j + 1) ≡ i / 2 ^ j % 2 * 2 ^ j + i % 2 ^ j
  next_digit i j =
      let m = 2 ^ j in
      let q = i / m in
      let r = i % m in
      let small : r < m = mod-lt i (pow_pos j) in
      let parts : q * m + r ≡ i = div-add-mod' i m in
      let double : 2 ^ (j + 1) ≡ 2 * m = omega (arith, pow_add 2 j 1) in
      let halves : q / 2 * (2 * m) ≡ q / 2 * 2 * m = omega (arith, mul_assoc (q / 2) 2 m) in
      let whole : (q / 2 * 2 + q % 2) * m ≡ q / 2 * 2 * m + q % 2 * m =
        add-mul (q / 2 * 2) (q % 2) m in
      let digits : q / 2 * 2 + q % 2 ≡ q = omega arith in
      let split : i ≡ q / 2 * (2 * m) + (q % 2 * m + r) =
        omega (arith, parts, halves, whole, ap (λ (k : ℕ). k * m) digits) in
      let bound : q % 2 * m ≤ 1 * m = mul-le-mul_right m (omega arith) in
      ap (λ (k : ℕ). i % k) double
      ∙ ap (λ (k : ℕ). k % (2 * m)) split
      ∙ mul-add-mod_self_right (q / 2) (2 * m) (q % 2 * m + r)
      ∙ mod-eq_of_lt (omega arith)

  crc_of_bits-leader :
      (i count j crc crc_count : ℕ)
      → crc ≡ bit_xor (odd_part crc_count) (leader n (i % 2 ^ j))
      → (crc_of_bits n i count j crc crc_count).0
        ≡ bit_xor
            (odd_part (crc_of_bits n i count j crc crc_count).1)
            (leader n (i % 2 ^ (j + count)))
  unfolding crc_of_bits
  crc_of_bits-leader i zero j crc crc_count h =
      h ∙ ap (λ (k : ℕ). bit_xor (odd_part crc_count) (leader n (i % 2 ^ k))) (omega arith)
  crc_of_bits-leader i (suc count) j crc crc_count h =
      let next : i % 2 ^ (j + 1) ≡ i / 2 ^ j % 2 * 2 ^ j + i % 2 ^ j = next_digit i j in
      let last : j + 1 + count ≡ j + suc count = omega arith in
      elim (Bool-cases (i / 2 ^ j % 2 == 1)) [
        | inr clear ↦
            let digit : i / 2 ^ j % 2 ≡ 0 = ground arith in
            let same : i % 2 ^ (j + 1) ≡ i % 2 ^ j =
              omega (arith, next, ap (λ (d : ℕ). d * 2 ^ j) digit) in
            rw (clear, ← last)
              (crc_of_bits-leader i count (j + 1) crc crc_count
                (h ∙ ap (λ (k : ℕ). bit_xor (odd_part crc_count) (leader n k)) (sym same)))
        | inl there ↦
            let r = i % 2 ^ j in
            let digit : i / 2 ^ j % 2 ≡ 1 = ground arith in
            let top : bit_xor r (2 ^ j) ≡ i % 2 ^ (j + 1) =
              bit_xor_comm r (2 ^ j)
              ∙ bit_xor-pow_top j r (mod-lt i (pow_pos j))
              ∙ omega (arith, next, ap (λ (d : ℕ). d * 2 ^ j) digit) in
            let crc' : bit_xor crc (base_table n j)
                ≡ bit_xor (odd_part (crc_count + 1)) (leader n (i % 2 ^ (j + 1))) =
              ap₂ bit_xor h (base_table-leader j)
              ∙ bit_xor_middle (odd_part crc_count) (leader n r) c0 (leader n (2 ^ j))
              ∙ ap₂ bit_xor (sym (odd_part-suc crc_count))
                  (sym (leader_linear n r (2 ^ j)) ∙ ap (leader n) top) in
            rw (there, ← last)
              (crc_of_bits-leader i count (j + 1) (bit_xor crc (base_table n j)) (crc_count + 1)
                crc')
      ]

  crc_of_leader_lem : (i : ℕ) → i < 256 → crc_of_leader n i ≡ bit_xor c0 (leader n i)
  unfolding crc_of_leader
  crc_of_leader_lem i h =
      let start : 0 ≡ bit_xor (odd_part 0) (leader n (i % 2 ^ 0)) =
        let e : i % 1 ≡ 0 = omega arith in rw (e, leader-zero n) refl in
      let all = crc_of_bits-leader i 8 0 0 0 start in
      let small : i % 2 ^ 8 ≡ i = mod-eq_of_lt h in
      let count = (crc_of_bits n i 8 0 0 0).1 in
      elim (Bool-cases (count % 2 == 0)) [
        | inl even ↦ rw even (
            ap (λ c. bit_xor c c0) (rw even at all ∙ zero-bit_xor _ ∙ ap (leader n) small)
            ∙ bit_xor_comm (leader n i) c0)
        | inr odd ↦ rw odd (rw odd at all ∙ ap (λ (k : ℕ). bit_xor c0 (leader n k)) small)
      ]

  masked_table_lem :
      (i : ℕ)
      → i < 256
      → masked_table n i ≡ bit_xor (checksum_ieee (i ∷ replicate n 0)) (crc_window_mask n)
  unfolding masked_table
  masked_table_lem zero h = ap (λ c. bit_xor c (crc_window_mask n)) crc_zeros-leader
  masked_table_lem (suc i) h =
      ap (λ c. bit_xor c (crc_window_mask n))
        (crc_of_leader_lem (suc i) h
          ∙ ap (λ c. bit_xor c (leader n (suc i))) crc_zeros-leader
          ∙ sym (checksum_ieee-leader n (suc i)))

-- The mask is the CRC of as many zeros as the window has bytes.
crc_window_mask_lem : (n : ℕ) → 4 ≤ n → crc_window_mask n ≡ checksum_ieee (replicate n 0)
unfolding crc_window_mask checksum_ieee run crc_step ieee_table crc_bit
crc_window_mask_lem zero h = absurd (omega arith)
crc_window_mask_lem (suc zero) h = absurd (omega arith)
crc_window_mask_lem (suc (suc zero)) h = absurd (omega arith)
crc_window_mask_lem (suc (suc (suc zero))) h = absurd (omega arith)
crc_window_mask_lem (suc (suc (suc (suc n)))) h =
    ap (λ zs. checksum_ieee (set (set zs 0 0xff) 4 0xff)) (zeros-cons (suc (suc (suc (suc n)))))

-- Sums in which a term is met twice.
sum_of_runs :
    (f a b z : ℕ)
    → bit_xor (bit_xor f (bit_xor a b)) (bit_xor (bit_xor f a) (bit_xor f z))
      ≡ bit_xor f (bit_xor z b)
sum_of_runs f a b z =
    ap (bit_xor (bit_xor f (bit_xor a b))) (
      bit_xor_middle f a f z
      ∙ ap (λ t. bit_xor t (bit_xor a z)) (bit_xor_self f)
      ∙ zero-bit_xor (bit_xor a z))
    ∙ bit_xor_assoc f (bit_xor a b) (bit_xor a z)
    ∙ ap (bit_xor f) (
        bit_xor_middle a b a z
        ∙ ap (λ t. bit_xor t (bit_xor b z)) (bit_xor_self a)
        ∙ zero-bit_xor (bit_xor b z)
        ∙ bit_xor_comm b z)

-- The state after a byte more.
run-suffix :
    (leading : ℕ) (middle : Bytes) (new_trailer : ℕ)
    → crc_step (complement (checksum_ieee (leading ∷ middle))) new_trailer
      ≡ run (crc_step all_ones leading) (middle ++ (new_trailer ∷ []))
unfolding checksum_ieee run
run-suffix leading middle new_trailer =
    ap (λ c. crc_step c new_trailer)
      (bit_xor_cancel_left all_ones (run (crc_step all_ones leading) middle))
    ∙ sym (run-append (crc_step all_ones leading) middle (new_trailer ∷ []))

-- The leading byte cancels: for the rest, as long as the window, of a longer slice.
leading-cancel :
    (n leading : ℕ) (rest : Bytes)
    → length rest ≡ n
    → 4 ≤ n
    → leading < 256
    → bit_xor (complement (run (crc_step all_ones leading) rest)) (masked_table n leading)
      ≡ checksum_ieee rest
unfolding checksum_ieee run
leading-cancel n leading rest size big small =
    let zs = replicate n 0 in
    let s = crc_step all_ones leading in
    let from : (x : ℕ) → run x rest ≡ bit_xor (run x zs) (run 0 rest) = λ x.
      ap (λ t. run t rest) (sym (bit_xor-zero x))
      ∙ run_linear x 0 rest
      ∙ ap (λ (k : ℕ). bit_xor (run x (replicate k 0)) (run 0 rest)) size in
    let table : masked_table n leading
        ≡ bit_xor (bit_xor all_ones (run s zs)) (bit_xor all_ones (run all_ones zs)) =
      masked_table_lem n leading small
      ∙ ap₂ bit_xor (unfold checksum_ieee run in refl)
          (crc_window_mask_lem n big ∙ (unfold checksum_ieee in refl)) in
    ap₂ bit_xor (ap complement (from s)) table
    ∙ sum_of_runs all_ones (run s zs) (run 0 rest) (run all_ones zs)
    ∙ ap (bit_xor all_ones) (sym (from all_ones))

-- Where newCRC32Window does not panic, its table makes update give the CRC32 of the window that
-- starts one byte later, from that of the window that starts with the old leader, for all windows
-- of its size.
pub update-checksum_ieee :
    (window_size : ℕ) (w : Crc32Window) (old_leader new_trailer : ℕ) (middle : Bytes)
    → new_crc32_window window_size ≡ some w
    → old_leader < 256
    → length (old_leader ∷ middle) ≡ window_size
    → update w (checksum_ieee (old_leader ∷ middle)) old_leader new_trailer
      ≡ checksum_ieee (middle ++ (new_trailer ∷ []))
unfolding new_crc32_window update crc_step
update-checksum_ieee n w old_leader new_trailer middle made small size =
    elim (Bool-cases (ltb n 4)) [
      | inl few ↦ absurd (ground arith)
      | inr enough ↦ elim (Bool-cases (ltb max_alloc (n + 1))) [
        | inl long ↦ absurd (ground (arith, rw (enough, long) at made))
        | inr short ↦
            let big : 4 ≤ n = ground arith in
            let same : record { window_size = n; crc_old_leader_masked_table = masked_table n }
                ≡ w =
              some-injective _ _ (rw (enough, short) at made) in
            let table : w.crc_old_leader_masked_table old_leader ≡ masked_table n old_leader =
              ap (λ (v : Crc32Window). v.crc_old_leader_masked_table old_leader) (sym same) in
            ap₂ (λ a b. bit_xor (complement a) b) (run-suffix old_leader middle new_trailer) table
            ∙ leading-cancel n old_leader (middle ++ (new_trailer ∷ []))
                (length-append middle (new_trailer ∷ []) ∙ omega arith) big small
      ]
    ]

-- A window of 4 bytes and more that can be allocated is made.
pub new_crc32_window-some :
    (window_size : ℕ)
    → 4 ≤ window_size
    → window_size < max_alloc
    → (w : Crc32Window) × (new_crc32_window window_size ≡ some w)
unfolding new_crc32_window
new_crc32_window-some n h short =
    let big : ltb n 4 ≡ false = ground arith in
    let fits : ltb max_alloc (n + 1) ≡ false = ground arith in
    (record { window_size = n; crc_old_leader_masked_table = masked_table n }, rw (big, fits) refl)
