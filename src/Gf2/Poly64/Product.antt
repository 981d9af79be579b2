-- ===== src/Gf2/Poly64/Product.antt =====
-- Times against the product of polynomials by Horner's rule, with no bound on the degree.
use gopar.Common.{
  ℕ, zero, suc, ◌*◌, ◌/◌, ◌%◌, ◌^◌, ◌<◌, bit_xor, ◌==◌, if◌then◌else◌, ◌≡◌, refl, sym, ap, ◌∙◌,
  arith,
}
use gopar.Gf2.Poly64.{Poly64, times_loop, times}
use gopar.Common.Bits.{
  zero-bit_xor, bit_xor-zero, bit_xor_assoc, bit_xor_middle, bit_xor_double, bit_xor_mod_pow,
  bit_xor-lt, bit_and-one,
}
use native.Mathlib.Nat.{pow-suc, mod-eq_of_lt}

-- The product of `p` with the `n` low digits of `q`.
unfoldable pub product : ℕ → ℕ → ℕ → ℕ
product zero p q = 0
product (suc n) p q = bit_xor (if q % 2 == 0 then 0 else p) (product n p (q / 2) * 2)

pub product_zero : (n q : ℕ) → product n 0 q ≡ 0
unfolding product
product_zero zero q = refl
product_zero (suc n) q = rw (product_zero n (q / 2)) (ground (arith, zero-bit_xor 0))

pub product_zero_right : (n p : ℕ) → product n p 0 ≡ 0
unfolding product
product_zero_right zero p = refl
product_zero_right (suc n) p =
    let e : 0 / 2 ≡ 0 = refl in rw (product_zero_right n p) (ground (arith, zero-bit_xor 0))

product_double : (n p q : ℕ) → product n (p * 2) q ≡ product n p q * 2
unfolding product
product_double zero p q = refl
product_double (suc n) p q = rw (product_double n p (q / 2)) (
    ground (
      arith,
      bit_xor_double p (product n p (q / 2) * 2),
      zero-bit_xor (product n p (q / 2) * 2),
      zero-bit_xor (product n p (q / 2) * 2 * 2),
    ))

-- The product is linear in its first factor.
pub product_linear :
    (n a b q : ℕ) → product n (bit_xor a b) q ≡ bit_xor (product n a q) (product n b q)
unfolding product
product_linear zero a b q = sym (zero-bit_xor 0)
product_linear (suc n) a b q =
    let x = product n a (q / 2) in
    let y = product n b (q / 2) in
    ground (
      arith,
      product_linear n a b (q / 2),
      bit_xor_double x y,
      bit_xor_middle a (x * 2) b (y * 2),
      zero-bit_xor (x * 2),
      zero-bit_xor (y * 2),
      zero-bit_xor (bit_xor x y * 2),
    )

-- Only the low digits of the factor count in the low digits of the product.
product_mod : (n p q : ℕ) → product n (p % 2 ^ 64) q % 2 ^ 64 ≡ product n p q % 2 ^ 64
unfolding product
product_mod zero p q = refl
product_mod (suc n) p q =
    let x = product n (p % 2 ^ 64) (q / 2) in
    let y = product n p (q / 2) in
    let ih : x % 2 ^ 64 ≡ y % 2 ^ 64 = product_mod n p (q / 2) in
    let e : x * 2 % 2 ^ 64 ≡ y * 2 % 2 ^ 64 = omega arith in
    let pp : p % 2 ^ 64 % 2 ^ 64 ≡ p % 2 ^ 64 = omega arith in
    ground (
      arith,
      bit_xor_mod_pow 64 (p % 2 ^ 64) (x * 2),
      bit_xor_mod_pow 64 p (y * 2),
      bit_xor_mod_pow 64 0 (x * 2),
      bit_xor_mod_pow 64 0 (y * 2),
    )

-- What a round of the loop does to the two factors.
product_shift :
    (n p q : ℕ) → product n (p * 2 % 2 ^ 64) (q / 2) % 2 ^ 64 ≡ product n p (q / 2) * 2 % 2 ^ 64
product_shift n p q =
    product_mod n (p * 2) (q / 2) ∙ ap (λ t. t % 2 ^ 64) (product_double n p (q / 2))

-- One round, given the rest of the loop for any value of `prod`.
times_round :
    (n : ℕ) (p q prod : Poly64)
    → p < 2 ^ 64
    → ((acc : Poly64)
        → times_loop n (p * 2 % 2 ^ 64) (q / 2) acc
          ≡ bit_xor acc (product n (p * 2 % 2 ^ 64) (q / 2) % 2 ^ 64))
    → times_loop (suc n) p q prod ≡ bit_xor prod (product (suc n) p q % 2 ^ 64)
unfolding times_loop product
times_round n p q prod hp rest =
    let x = product n p (q / 2) in
    let low : p % 2 ^ 64 ≡ p = omega arith in
    ground (
      arith,
      bit_and-one q,
      rest (bit_xor prod p),
      rest prod,
      product_shift n p q,
      bit_xor_assoc prod p (x * 2 % 2 ^ 64),
      bit_xor_mod_pow 64 p (x * 2),
      zero-bit_xor (x * 2),
      bit_xor-zero prod,
      product_zero (suc n) q,
      product_zero_right (suc n) p,
    )

times_loop_lem :
    (n : ℕ) (p q prod : Poly64)
    → q < 2 ^ n
    → p < 2 ^ 64
    → times_loop n p q prod ≡ bit_xor prod (product n p q % 2 ^ 64)
unfolding times_loop product
times_loop_lem zero p q prod hq hp = sym (bit_xor-zero prod)
times_loop_lem (suc n) p q prod hq hp = times_round n p q prod hp (λ acc.
    times_loop_lem n (p * 2 % 2 ^ 64) (q / 2) acc (omega (arith, pow-suc 2 n)) (omega arith))

-- Times is the product of the two polynomials, cut off at x^64.
pub times-product : (p q : Poly64) → p < 2 ^ 64 → q < 2 ^ 64 → times p q ≡ product 64 p q % 2 ^ 64
unfolding times
times-product p q hp hq = times_loop_lem 64 p q 0 hq hp ∙ zero-bit_xor (product 64 p q % 2 ^ 64)

-- The product with x + 1.
pub times_three : (p : Poly64) → p < 2 ^ 63 → times p 3 ≡ bit_xor p (p * 2)
unfolding product
times_three p h =
    let last : product 62 p 0 ≡ 0 = product_zero_right 62 p in
    let one : bit_xor p (product 62 p 0 * 2) ≡ p =
      ap (λ (t : ℕ). bit_xor p (t * 2)) last ∙ bit_xor-zero p in
    times-product p 3 (omega arith) (omega arith)
    ∙ ap (λ (t : ℕ). bit_xor p (t * 2) % 2 ^ 64) one
    ∙ mod-eq_of_lt (bit_xor-lt 64 p (p * 2) (omega arith) (omega arith))
