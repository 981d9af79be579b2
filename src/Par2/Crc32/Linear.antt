-- ===== src/Par2/Crc32/Linear.antt =====
-- The steps of the CRC are linear for the exclusive or.
use gopar.Common.{
  ℕ, zero, suc, ◌+◌, ◌*◌, ◌/◌, ◌%◌, ◌<◌, ◌≡◌, ◌∙◌, sym, ap, refl, bit_xor, [], ◌∷◌, ◌++◌, length,
  replicate, arith,
}
use mathlib.Core.Path.{ap₂}
use gopar.Common.Bytes.{Bytes}
use gopar.Common.Bits.{
  bit_xor_half, bit_xor_low, bit_xor_middle, bit_xor_mod_pow, bit_xor_div_pow, zero-bit_xor,
}
use gopar.Gf2p16.T.Triple.{scaled_xor}
use gopar.Par2.Crc32.{crc_bit, ieee_table, crc_step, run}

digit_sum : (a b : ℕ) → a < 2 → b < 2 → (a + b) % 2 ≡ bit_xor a b
digit_sum zero zero ha hb = refl
digit_sum zero (suc zero) ha hb = refl
digit_sum (suc zero) zero ha hb = refl
digit_sum (suc zero) (suc zero) ha hb = refl
digit_sum (suc (suc a)) b ha hb = absurd (omega arith)
digit_sum zero (suc (suc b)) ha hb = absurd (omega arith)
digit_sum (suc zero) (suc (suc b)) ha hb = absurd (omega arith)

-- Two multiples of a number by digits.
digit_multiples : (a b c : ℕ) → a < 2 → b < 2 → (a + b) % 2 * c ≡ bit_xor (a * c) (b * c)
digit_multiples a b c ha hb =
    ap (λ (d : ℕ). d * c) (digit_sum a b ha hb) ∙ sym (scaled_xor a b c ha hb)

crc_bit_linear : (x y : ℕ) → crc_bit (bit_xor x y) ≡ bit_xor (crc_bit x) (crc_bit y)
unfolding crc_bit
crc_bit_linear x y =
    ap₂ bit_xor (bit_xor_half x y) (
      ap (λ (d : ℕ). d * 0xedb88320) (bit_xor_low x y)
      ∙ digit_multiples (x % 2) (y % 2) 0xedb88320 (omega arith) (omega arith))
    ∙ bit_xor_middle (x / 2) (y / 2) (x % 2 * 0xedb88320) (y % 2 * 0xedb88320)

-- Linear functions composed.
twice_linear :
    (f : ℕ → ℕ)
    → ((x y : ℕ) → f (bit_xor x y) ≡ bit_xor (f x) (f y))
    → (x y : ℕ) → f (f (bit_xor x y)) ≡ bit_xor (f (f x)) (f (f y))
twice_linear f h x y = ap f (h x y) ∙ h (f x) (f y)

pub ieee_table_linear : (x y : ℕ) → ieee_table (bit_xor x y) ≡ bit_xor (ieee_table x) (ieee_table y)
unfolding ieee_table
ieee_table_linear x y =
    twice_linear (λ n. crc_bit (crc_bit (crc_bit (crc_bit n))))
      (twice_linear (λ n. crc_bit (crc_bit n)) (twice_linear crc_bit crc_bit_linear)) x y

pub crc_step_linear :
    (s s' b b' : ℕ)
    → crc_step (bit_xor s s') (bit_xor b b') ≡ bit_xor (crc_step s b) (crc_step s' b')
unfolding crc_step
crc_step_linear s s' b b' =
    ap₂ bit_xor
      (ap ieee_table (
          ap (λ t. bit_xor t (bit_xor b b')) (bit_xor_mod_pow 8 s s')
          ∙ bit_xor_middle (s % 256) (s' % 256) b b')
        ∙ ieee_table_linear (bit_xor (s % 256) b) (bit_xor (s' % 256) b'))
      (bit_xor_div_pow 8 s s')
    ∙ bit_xor_middle (ieee_table (bit_xor (s % 256) b)) (ieee_table (bit_xor (s' % 256) b'))
        (s / 256) (s' / 256)

-- A run from a sum of states: the zeros from one of them, and the bytes from the other.
pub run_linear :
    (s s' : ℕ) (bs : Bytes)
    → run (bit_xor s s') bs ≡ bit_xor (run s (replicate (length bs) 0)) (run s' bs)
unfolding run
run_linear s s' [] = refl
run_linear s s' (b ∷ bs) =
    ap (λ t. run t bs)
      (ap (crc_step (bit_xor s s')) (sym (zero-bit_xor b)) ∙ crc_step_linear s s' 0 b)
    ∙ run_linear (crc_step s 0) (crc_step s' b) bs

pub run-append : (s : ℕ) (xs ys : Bytes) → run s (xs ++ ys) ≡ run (run s xs) ys
unfolding run
run-append s [] ys = refl
run-append s (x ∷ xs) ys = run-append (crc_step s x) xs ys
