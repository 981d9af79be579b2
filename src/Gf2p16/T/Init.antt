-- ===== src/Gf2p16/T/Init.antt =====
-- init fills the tables without a panic, and they are the powers and the logarithms of g.
use gopar.Common.{
  ℕ, zero, suc, ◌+◌, ◌*◌, ◌/◌, ◌%◌, ◌^◌, ◌≤◌, ◌<◌, bit_xor, ◌≡◌, refl, sym, ap, ◌∙◌, arith, false,
  some,
}
use mathlib.Core.Path.{subst}
use gopar.Common.Bits.{bit_xor-lt, bit_xor-zero}
use gopar.Gf2.Poly64
use gopar.Gf2.Poly64.{QuotRem}
use gopar.Gf2.Poly64.Product.{times_three}
use gopar.Gf2.Poly64.Quotient.{div_one_step}
use gopar.Gf2p16.T.{T, Tables, empty_tables, update, pred16, m, g, next, panics, fill, init}
use gopar.Gf2p16.T.Triple.{triple, triple-lt, carry_bound, iter, iter-suc, power, power-lt}
use gopar.Gf2p16.T.Order.{power-injective, power-ne-zero}

-- The division of a round leaves the triple.
next-triple : (x : T) → x < 2 ^ 16 → next x ≡ some (triple x)
unfolding next triple
next-triple x h =
    let y = bit_xor x (x * 2) in
    let hy : y < 2 ^ 17 = bit_xor-lt 17 x (x * 2) (omega arith) (omega arith) in
    let (d, e, r) =
      div_one_step y m 16 (omega arith) (omega arith) (omega arith) hy (omega arith) in
    let same : Poly64.times x g ≡ y = times_three x (omega arith) in
    let value : d.r ≡ bit_xor y (y / 2 ^ 16 * m) =
      ground (arith, carry_bound x h, bit_xor-zero y) in
    rw (same, e) (ap some (ap (λ t. t % 2 ^ 16) value ∙ omega (arith, triple-lt x h)))

-- The tables before round `p`.
pub record IsFilled (p : ℕ) (s : Tables) : Type 0 where
  pub exp_below : (i : ℕ) → i < p → s.exp i ≡ power i
  pub exp_above : (i : ℕ) → p ≤ i → s.exp i ≡ 0
  pub log_below : (i : ℕ) → i < p → s.log (pred16 (power i)) ≡ i
  pub log_above : (i : ℕ) → p ≤ i → i < 65535 → s.log (pred16 (power i)) ≡ 0

power_zero : power 0 ≡ 1
unfolding iter
power_zero = refl

pred16-power : (i j : ℕ) → i < 65535 → j < 65535 → pred16 (power i) ≡ pred16 (power j) → i ≡ j
pred16-power i j hi hj e =
    power-injective i j hi hj
      (omega (arith, power-lt i, power-lt j, power-ne-zero i hi, power-ne-zero j hj))

-- No check of a round fires.
no_panic : (p : ℕ) (s : Tables) → p < 65535 → IsFilled p s → panics p (power p) s ≡ false
unfolding panics
no_panic p s h filled = ground (
  arith,
  filled.exp_above p,
  filled.log_above p,
  power-lt p,
  power-ne-zero p h,
  power-injective p 0 h (omega arith),
  power_zero,
)

abbrev stored : ℕ → Tables → Tables
stored p s = record {
  log = update s.log (pred16 (power p)) (p % 2 ^ 16);
  exp = update s.exp p (power p);
}

stored-IsFilled : (p : ℕ) (s : Tables) → p < 65535 → IsFilled p s → IsFilled (p + 1) (stored p s)
stored-IsFilled p s h filled = record {
  exp_below = λ i hi. ground (arith, filled.exp_below i);
  exp_above = λ i hi. ground (arith, filled.exp_above i);
  log_below = λ i hi. ground (arith, filled.log_below i, pred16-power i p (omega arith) h);
  log_above =
      λ i hi hi'. ground (arith, filled.log_above i (omega arith) hi', pred16-power i p hi' h);
}

fill-suc :
    (rounds p : ℕ) (x : T) (s : Tables)
    → panics p x s ≡ false
    → x < 2 ^ 16
    → fill (suc rounds) p x s
      ≡ fill rounds
          (p + 1)
          (triple x)
          (record { log = update s.log (pred16 x) (p % 2 ^ 16); exp = update s.exp p x })
unfolding fill
fill-suc rounds p x s e h = rw (e, next-triple x h)

fill-IsFilled :
    (rounds p : ℕ) (s : Tables)
    → rounds + p ≡ 65535
    → IsFilled p s
    → (t : Tables) × (fill rounds p (power p) s ≡ some t) × IsFilled 65535 t
fill-IsFilled zero p s e filled =
    let last : p ≡ 65535 = omega arith in
    (s, unfold fill in refl, subst (λ k. IsFilled k s) last filled)
fill-IsFilled (suc rounds) p s e filled =
    let h : p < 65535 = omega arith in
    let step : triple (power p) ≡ power (p + 1) =
      sym (iter-suc p 1) ∙ ap (λ (t : ℕ). power t) (omega arith) in
    let (t, run, full) =
      fill-IsFilled rounds (p + 1) (stored p s) (omega arith) (stored-IsFilled p s h filled) in
    (
      t,
      fill-suc rounds p (power p) s (no_panic p s h filled) (power-lt p)
          ∙ ap (λ x. fill rounds (p + 1) x (stored p s)) step
          ∙ run,
      full,
    )

empty-IsFilled : IsFilled 0 empty_tables
empty-IsFilled = record {
  exp_below = λ i h. absurd (omega arith);
  exp_above = λ i h. refl;
  log_below = λ i h. absurd (omega arith);
  log_above = λ i h h'. refl;
}

-- init returns, and its tables are full: exp holds the powers of g and log their exponents.
pub init-IsFilled : (t : Tables) × (init ≡ some t) × IsFilled 65535 t
unfolding init
init-IsFilled =
    let (t, run, full) = fill-IsFilled 65535 0 empty_tables (omega arith) empty-IsFilled in
    (t, ap (λ x. fill 65535 0 x empty_tables) (sym power_zero) ∙ run, full)
