-- ===== src/Gf2/Poly64.antt =====
-- gf2/poly64.go: polynomials over GF(2) mod x^64, as the bits of a uint64.
pub mod Product
pub mod Quotient
use gopar.Common.{
  ℕ, zero, suc, ◌+◌, ◌-◌, ◌*◌, ◌/◌, ◌%◌, ◌^◌, bit_xor, bit_and, ◌==◌, ltb, ◌||◌, not, if◌then◌else◌,
  Option, none, some,
}

-- A Poly64 is a number below 2 ^ 64.
abbrev pub Poly64 : Type 0
Poly64 = ℕ

pub plus : Poly64 → Poly64 → Poly64
plus p q = bit_xor p q

pub minus : Poly64 → Poly64 → Poly64
minus p q = bit_xor p q

-- The loop of Times over `p`, `q` and `prod`, with fuel: `q` is shifted right in each round.
pub times_loop : ℕ → Poly64 → Poly64 → Poly64 → Poly64
times_loop zero p q prod = prod
times_loop (suc fuel) p q prod =
    let prod' = if not (bit_and q 1 == 0) then bit_xor prod p else prod in
    let rest = times_loop fuel (p * 2 % 2 ^ 64) (q / 2) prod' in
    if p == 0 || q == 0 then prod else rest

unfoldable pub times : Poly64 → Poly64 → Poly64
times p q = times_loop 64 p q 0

-- The loop of ilog2 over `n` and `r`.
pub ilog2_loop : ℕ → ℕ → ℕ → ℕ
ilog2_loop zero n r = r
ilog2_loop (suc fuel) n r =
    let rest = ilog2_loop fuel (n / 2) (r + 1) in if n / 2 == 0 then r else rest

unfoldable pub ilog2 : ℕ → ℕ
ilog2 n = ilog2_loop 64 n 0

pub record QuotRem : Type 0 where
  pub q : Poly64
  pub r : Poly64

-- The loop of Div over `q` and `r`: each round takes the top bit off `r`.
pub div_loop : ℕ → Poly64 → Poly64 → Poly64 → QuotRem
div_loop zero p2 q r = record { q = q; r = r }
div_loop (suc fuel) p2 q r =
    let dlog2 = ilog2 r - ilog2 p2 in
    let rest =
      div_loop fuel p2 (bit_xor q (2 ^ dlog2 % 2 ^ 64)) (bit_xor r (p2 * 2 ^ dlog2 % 2 ^ 64)) in
    if r == 0 || ltb (ilog2 r) (ilog2 p2) then record { q = q; r = r } else rest

-- `none` is the panic on division by zero.
unfoldable pub div : Poly64 → Poly64 → Option QuotRem
div p p2 = if p2 == 0 then none else some (div_loop 64 p2 0 p)
