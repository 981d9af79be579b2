-- ===== src/Gf2/Poly64/Quotient.antt =====
-- ilog2 and Div: the logarithm is exact, and the division is Euclid's.
use gopar.Common.{
  ℕ, zero, suc, ◌+◌, ◌-◌, ◌*◌, ◌/◌, ◌%◌, ◌^◌, ◌≤◌, ◌<◌, bit_xor, ◌==◌, ltb, true, ltb→lt, lt→ltb,
  Bool-cases, inl, inr, if◌then◌else◌, ◌≡◌, ◌⊎◌, refl, sym, ap, ◌∙◌, arith, some,
}
use gopar.Common.Bits.{
  zero-bit_xor, bit_xor-zero, bit_xor_step, bit_xor_middle, bit_xor_self, bit_xor_mul_pow,
  bit_xor_mod_pow, bit_xor-lt, bit_xor_same_top, pow_add, pow_pos,
}
use native.Mathlib.Nat.{pow-suc, pow-le-pow_right, lt_of_not-le, mul-le-mul_right, mod-eq_of_lt}
use gopar.Gf2.Poly64.{Poly64, QuotRem, times, plus, ilog2_loop, ilog2, div_loop, div}
use gopar.Gf2.Poly64.Product.{product, product_zero, product_linear, times-product}

ilog2_loop_lem :
    (fuel n r : ℕ)
    → 0 < n
    → n < 2 ^ fuel
    → (l : ℕ) × (ilog2_loop fuel n r ≡ r + l) × (2 ^ l ≤ n) × (n < 2 ^ suc l)
unfolding ilog2_loop
ilog2_loop_lem zero n r pos h = absurd (omega arith)
ilog2_loop_lem (suc fuel) n r pos h = elim (Bool-cases (n / 2 == 0)) [
  | inl e ↦ (0, rw e (omega arith), omega arith, ground arith)
  | inr e ↦
      let (l, el, lo, hi) =
        ilog2_loop_lem fuel (n / 2) (r + 1) (ground arith) (omega (arith, pow-suc 2 fuel)) in
      (suc l, rw e (omega arith), omega (arith, pow-suc 2 l), omega (arith, pow-suc 2 (suc l)))
]

-- ilog2 is the position of the top bit.
pub ilog2_bounds : (n : ℕ) → 0 < n → n < 2 ^ 64 → (2 ^ ilog2 n ≤ n) × (n < 2 ^ suc (ilog2 n))
unfolding ilog2
ilog2_bounds n pos h =
    let (l, el, lo, hi) = ilog2_loop_lem 64 n 0 pos h in
    let e : ilog2 n ≡ l = omega arith in rw e (lo, hi)

-- A power of two among the bounds of a number bounds its exponent.
pub pow_cancel : (a b : ℕ) → 2 ^ a < 2 ^ b → a < b
pow_cancel a b h =
    lt_of_not-le (λ le. absurd (omega (arith, pow-le-pow_right {n = 2} (omega arith) le)))

pub ilog2-lt : (n k : ℕ) → 0 < n → n < 2 ^ 64 → n < 2 ^ k → ilog2 n < k
ilog2-lt n k pos h hk = pow_cancel (ilog2 n) k (omega (arith, ilog2_bounds n pos h))

digit_and_rest : (q : ℕ) → bit_xor (q % 2) (q / 2 * 2) ≡ q
digit_and_rest q =
    let e : q % 2 / 2 ≡ 0 = omega arith in
    let e' : q / 2 * 2 / 2 ≡ q / 2 = omega arith in
    ground (arith, bit_xor_step (q % 2) (q / 2 * 2), zero-bit_xor (q / 2))

product_pow : (n d q : ℕ) → q < 2 ^ n → product n (2 ^ d) q ≡ q * 2 ^ d
unfolding product
product_pow zero d q h = let e : q ≡ 0 = omega arith in rw e (omega arith)
product_pow (suc n) d q h =
    let ih : product n (2 ^ d) (q / 2) ≡ q / 2 * 2 ^ d =
      product_pow n d (q / 2) (omega (arith, pow-suc 2 n)) in
    let e : q / 2 * 2 * 2 ^ d ≡ q / 2 * 2 ^ d * 2 = omega arith in
    ground (
      arith,
      bit_xor_mul_pow d (q % 2) (q / 2 * 2),
      digit_and_rest q,
      zero-bit_xor (q / 2 * 2 * 2 ^ d),
    )

-- The divisor, shifted so that its top bit is the one of `r`.
abbrev aligned : Poly64 → Poly64 → Poly64
aligned p2 r = p2 * 2 ^ (ilog2 r - ilog2 p2) % 2 ^ 64

aligned_bounds :
    (p2 r : Poly64)
    → 0 < p2
    → p2 < 2 ^ 64
    → ilog2 p2 ≤ ilog2 r
    → (2 ^ ilog2 r ≤ p2 * 2 ^ (ilog2 r - ilog2 p2))
      × (p2 * 2 ^ (ilog2 r - ilog2 p2) < 2 ^ suc (ilog2 r))
aligned_bounds p2 r hp hp' le =
    let k = ilog2 p2 in
    let d = ilog2 r - k in
    let m = 2 ^ d in
    let (lo, hi) = ilog2_bounds p2 hp hp' in
    let e : 2 ^ ilog2 r ≡ 2 ^ k * m = ap (λ (t : ℕ). 2 ^ t) (omega arith) ∙ pow_add 2 k d in
    let e' : 2 ^ suc (ilog2 r) ≡ 2 ^ suc k * m =
      ap (λ (t : ℕ). 2 ^ t) (omega arith) ∙ pow_add 2 (suc k) d in
    let low : 2 ^ k * m ≤ p2 * m = mul-le-mul_right m lo in
    let high : (p2 + 1) * m ≤ 2 ^ suc k * m = mul-le-mul_right m (omega arith) in
    (omega arith, omega (arith, pow_pos d))

-- Subtracting it takes the top bit off `r`.
aligned_lt :
    (p2 r : Poly64)
    → 0 < p2
    → p2 < 2 ^ 64
    → 0 < r
    → r < 2 ^ 64
    → ilog2 p2 ≤ ilog2 r
    → bit_xor r (aligned p2 r) < 2 ^ ilog2 r
aligned_lt p2 r hp hp' hr hr' le =
    let k = ilog2 p2 in
    let d = ilog2 r - k in
    let (lo, hi) = aligned_bounds p2 r hp hp' le in
    let room : 2 ^ suc (ilog2 r) ≤ 2 ^ 64 =
      pow-le-pow_right {n = 2} (omega arith) (ilog2-lt r 64 hr hr' hr') in
    let fits : aligned p2 r ≡ p2 * 2 ^ d = mod-eq_of_lt (omega arith) in
    let (rlo, rhi) = ilog2_bounds r hr hr' in
    rw fits (bit_xor_same_top (ilog2 r) r (p2 * 2 ^ d) rlo rhi lo hi)

-- A round of the loop: the equation that it keeps.
round_keeps :
    (p2 q r : Poly64) (d : ℕ)
    → p2 < 2 ^ 64
    → q < 2 ^ 64
    → d < 64
    → plus (times (bit_xor q (2 ^ d % 2 ^ 64)) p2) (bit_xor r (p2 * 2 ^ d % 2 ^ 64))
      ≡ plus (times q p2) r
unfolding plus
round_keeps p2 q r d hp hq hd =
    let pow : 2 ^ d < 2 ^ 64 =
      omega (arith, pow-le-pow_right {n = 2} (omega arith) hd, pow-suc 2 d, pow_pos d) in
    let t : 2 ^ d % 2 ^ 64 ≡ 2 ^ d = mod-eq_of_lt pow in
    let s = p2 * 2 ^ d % 2 ^ 64 in
    let product_split : times (bit_xor q (2 ^ d)) p2 ≡ bit_xor (times q p2) s =
      times-product (bit_xor q (2 ^ d)) p2 (bit_xor-lt 64 q (2 ^ d) hq pow) hp
      ∙ ap (λ x. x % 2 ^ 64)
          (product_linear 64 q (2 ^ d) p2 ∙ ap (bit_xor (product 64 q p2)) (product_pow 64 d p2 hp))
      ∙ bit_xor_mod_pow 64 (product 64 q p2) (p2 * 2 ^ d)
      ∙ ap (λ x. bit_xor x s) (sym (times-product q p2 hq hp)) in
    ap (λ x. bit_xor (times (bit_xor q x) p2) (bit_xor r s)) t
    ∙ ap (λ x. bit_xor x (bit_xor r s)) product_split
    ∙ bit_xor_middle (times q p2) s r s
    ∙ ap (bit_xor (bit_xor (times q p2) r)) (bit_xor_self s)
    ∙ bit_xor-zero (bit_xor (times q p2) r)

-- What Div promises: `q` times `p2` plus `r` is `p`, and `r` is zero or of a lower degree than `p2`.
pub record IsQuotRem (p p2 : Poly64) (d : QuotRem) : Type 0 where
  pub recombines : plus (times d.q p2) d.r ≡ p
  pub lower_degree : (d.r ≡ 0) ⊎ (ilog2 d.r < ilog2 p2)
  pub r_fits : d.r < 2 ^ 64

div_loop-zero : (fuel : ℕ) (p2 q : Poly64) → div_loop fuel p2 q 0 ≡ record { q = q; r = 0 }
unfolding div_loop
div_loop-zero zero p2 q = refl
div_loop-zero (suc fuel) p2 q = refl

div_loop-done :
    (fuel : ℕ) (p2 q r : Poly64)
    → ltb (ilog2 r) (ilog2 p2) ≡ true
    → div_loop fuel p2 q r ≡ record { q = q; r = r }
unfolding div_loop
div_loop-done zero p2 q r h = refl
div_loop-done (suc fuel) p2 q r h = ground arith

div_loop-more :
    (fuel : ℕ) (p2 q r : Poly64)
    → 0 < r
    → ilog2 p2 ≤ ilog2 r
    → div_loop (suc fuel) p2 q r
      ≡ div_loop fuel p2 (bit_xor q (2 ^ (ilog2 r - ilog2 p2) % 2 ^ 64)) (bit_xor r (aligned p2 r))
unfolding div_loop
div_loop-more fuel p2 q r pos le = ground arith

module _ (p p2 : Poly64) (hp : 0 < p2) (hp' : p2 < 2 ^ 64) where
  -- `fuel` is a bound on the number of digits of `r`: a round makes it fall.
  div_loop-IsQuotRem :
      (fuel : ℕ) (q r : Poly64)
      → r < 2 ^ fuel
      → r < 2 ^ 64
      → q < 2 ^ 64
      → plus (times q p2) r ≡ p
      → IsQuotRem p p2 (div_loop fuel p2 q r)
  div_loop-IsQuotRem fuel q zero small hr hq e =
      rw (div_loop-zero fuel p2 q) (record { recombines = e; lower_degree = inl refl; r_fits = hr })
  div_loop-IsQuotRem zero q (suc r) small hr hq e = absurd (omega arith)
  div_loop-IsQuotRem (suc fuel) q (suc r) small hr hq e =
      elim (Bool-cases (ltb (ilog2 (suc r)) (ilog2 p2))) [
        | inl lt ↦ rw (div_loop-done (suc fuel) p2 q (suc r) lt) (record {
          recombines = e;
          lower_degree = inr (ltb→lt (ilog2 (suc r)) (ilog2 p2) lt);
          r_fits = hr;
        })
        | inr ge ↦
            let le : ilog2 p2 ≤ ilog2 (suc r) = ground arith in
            let d = ilog2 (suc r) - ilog2 p2 in
            let top : ilog2 (suc r) < 64 = ilog2-lt (suc r) 64 (omega arith) hr hr in
            let r' = bit_xor (suc r) (aligned p2 (suc r)) in
            let falls : r' < 2 ^ ilog2 (suc r) = aligned_lt p2 (suc r) hp hp' (omega arith) hr le in
            let shorter : 2 ^ ilog2 (suc r) ≤ 2 ^ fuel =
              pow-le-pow_right {n = 2} (omega arith)
                (omega (arith, ilog2-lt (suc r) (suc fuel) (omega arith) hr small)) in
            rw (div_loop-more fuel p2 q (suc r) (omega arith) le) (
              div_loop-IsQuotRem fuel (bit_xor q (2 ^ d % 2 ^ 64)) r' (omega arith)
                (bit_xor-lt 64 (suc r) (aligned p2 (suc r)) hr (omega arith))
                (bit_xor-lt 64 q (2 ^ d % 2 ^ 64) hq (omega arith))
                (round_keeps p2 q (suc r) d hp' hq (omega arith) ∙ e))
      ]

div-pos : (p p2 : Poly64) → 0 < p2 → div p p2 ≡ some (div_loop 64 p2 0 p)
unfolding div
div-pos p p2 pos = ground arith

zero-times : (p2 : Poly64) → p2 < 2 ^ 64 → times 0 p2 ≡ 0
zero-times p2 h = times-product 0 p2 (omega arith) h ∙ ap (λ x. x % 2 ^ 64) (product_zero 64 p2)

-- A division by a divisor other than zero does not panic, and what it returns is the Euclidean
-- quotient and remainder: the quotient times the divisor plus the remainder gives back the
-- dividend, and the remainder is zero or of a lower degree than the divisor.
pub div-IsQuotRem :
    (p p2 : Poly64)
    → p < 2 ^ 64
    → 0 < p2
    → p2 < 2 ^ 64
    → (d : QuotRem) × (div p p2 ≡ some d) × IsQuotRem p p2 d
unfolding plus
div-IsQuotRem p p2 hp pos hp2 = (
  div_loop 64 p2 0 p,
  div-pos p p2 pos,
  div_loop-IsQuotRem p p2 pos hp2 64 0 p hp hp (omega arith)
      (ap (λ x. bit_xor x p) (zero-times p2 hp2) ∙ zero-bit_xor p),
)

ilog2_exact : (n k : ℕ) → 2 ^ k ≤ n → n < 2 ^ suc k → n < 2 ^ 64 → ilog2 n ≡ k
ilog2_exact n k lo hi h =
    let pos : 0 < n = omega (arith, pow_pos k) in
    omega (
      arith,
      ilog2-lt n (suc k) pos h hi,
      pow_cancel k (suc (ilog2 n)) (omega (arith, ilog2_bounds n pos h)),
    )

div_loop-short :
    (fuel : ℕ) (p2 q r : Poly64)
    → r < 2 ^ 64
    → r < 2 ^ ilog2 p2
    → div_loop fuel p2 q r ≡ record { q = q; r = r }
div_loop-short fuel p2 q zero hr h = div_loop-zero fuel p2 q
div_loop-short fuel p2 q (suc r) hr h =
    div_loop-done fuel p2 q (suc r) (lt→ltb _ _ (ilog2-lt (suc r) (ilog2 p2) (omega arith) hr h))

-- A dividend with at most as many digits as the divisor takes one step at most.
pub div_one_step :
    (p p2 : Poly64) (k : ℕ)
    → 2 ^ k ≤ p2
    → p2 < 2 ^ suc k
    → p2 < 2 ^ 64
    → p < 2 ^ suc k
    → p < 2 ^ 64
    → (d : QuotRem) × (div p p2 ≡ some d) × (d.r ≡ (if ltb p (2 ^ k) then p else bit_xor p p2))
div_one_step p p2 k lo hi fits hp fits' =
    let pos : 0 < p2 = omega (arith, pow_pos k) in
    let log : ilog2 p2 ≡ k = ilog2_exact p2 k lo hi fits in
    (
      div_loop 64 p2 0 p,
      div-pos p p2 pos,
      elim (Bool-cases (ltb p (2 ^ k))) [
        | inl lt ↦ rw (lt, div_loop-short 64 p2 0 p fits' (rw log (ltb→lt _ _ lt)))
        | inr ge ↦
            let top : 2 ^ k ≤ p = ground arith in
            let log' : ilog2 p ≡ k = ilog2_exact p k top hp fits' in
            let shift : ilog2 p - ilog2 p2 ≡ 0 = omega arith in
            let same : aligned p2 p ≡ p2 =
              ap (λ (t : ℕ). p2 * 2 ^ t % 2 ^ 64) shift ∙ omega arith in
            let less : bit_xor p p2 < 2 ^ ilog2 p2 =
              rw log (bit_xor_same_top k p p2 top hp lo hi) in
            let q' = bit_xor 0 (2 ^ (ilog2 p - ilog2 p2) % 2 ^ 64) in
            rw ge (
              ap (λ (d : QuotRem). d.r)
                (div_loop-more 63 p2 0 p (omega (arith, pow_pos k)) (omega arith)
                  ∙ ap (div_loop 63 p2 q') (ap (bit_xor p) same)
                  ∙ div_loop-short 63 p2 q' (bit_xor p p2) (bit_xor-lt 64 p p2 fits' fits) less))
      ],
    )
