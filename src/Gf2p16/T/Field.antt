-- ===== src/Gf2p16/T/Field.antt =====
-- With the tables of init, Plus, Times, Inverse, Div and Pow are the operations of a field.
use gopar.Common.{
  ℕ, zero, suc, ◌+◌, ◌-◌, ◌*◌, ◌%◌, ◌^◌, ◌≤◌, ◌<◌, bit_xor, ◌≡◌, ◌⊎◌, refl, sym, ap, ◌∙◌, arith,
  inl, inr, some,
}
use native.Mathlib.Nat.{mul-le-mul, mod-eq_of_lt}
use mathlib.Core.Option
use mathlib.Core.Path.{ap₂}
use gopar.Common.Bits.{bit_xor-lt}
use gopar.Gf2p16.T.{T, Tables, pred16, plus, times, inverse, div, pow}
use gopar.Gf2p16.T.Triple.{iter, iter-zero, iter_linear, iter-lt, power, power-lt}
use gopar.Gf2p16.T.Order.{
  power-ne-zero, power_mod, power_order, power_add, power_surjective, power_pos,
}
use gopar.Gf2p16.T.Init.{IsFilled}

power-cases : (u : T) → u < 2 ^ 16 → (u ≡ 0) ⊎ ((i : ℕ) × (i < 65535) × (power i ≡ u))
power-cases zero h = inl refl
power-cases (suc u) h = inr (power_surjective (suc u) (omega arith) h)

-- Steps count modulo the order.
iter_mod :
    (i j w : ℕ) → i < 65535 → j < 65535 → w < 2 ^ 16 → iter ((i + j) % 65535) w ≡ iter i (iter j w)
iter_mod i j w hi hj hw = elim (power-cases w hw) [
  | inl e ↦ rw e (iter-zero ((i + j) % 65535) ∙ sym (ap (iter i) (iter-zero j) ∙ iter-zero i))
  | inr (k, hk, e) ↦ rw (← e) (
      sym (power_add k ((i + j) % 65535))
      ∙ sym (power_mod (k + (i + j) % 65535))
      ∙ ap (λ (n : ℕ). power n) (omega arith)
      ∙ power_mod (k + j + i)
      ∙ power_add (k + j) i
      ∙ ap (iter i) (power_add k j))
]

module _ (t : Tables) (full : IsFilled 65535 t) where
  exp_power : (n : ℕ) → t.exp (n % 65535) ≡ power n
  exp_power n = full.exp_below (n % 65535) (omega arith) ∙ power_mod n

  -- The product of two powers adds the exponents.
  pub times-power : (i j : ℕ) → i < 65535 → j < 65535 → times t (power i) (power j) ≡ power (i + j)
  unfolding times
  times-power i j hi hj = ground (
    arith,
    full.log_below i hi,
    full.log_below j hj,
    power-ne-zero i hi,
    power-ne-zero j hj,
    exp_power (i + j),
  )

  pub zero-times : (u : T) → times t 0 u ≡ 0
  unfolding times
  zero-times u = refl

  pub times-zero : (u : T) → times t u 0 ≡ 0
  unfolding times
  times-zero u = ground arith

  -- By a power of g, the product is so many steps of the tables.
  times-iter : (i : ℕ) (u : T) → i < 65535 → u < 2 ^ 16 → times t (power i) u ≡ iter i u
  times-iter i zero hi hu = times-zero (power i) ∙ sym (iter-zero i)
  times-iter i (suc u) hi hu =
      let (j, hj, e) = power_surjective (suc u) (omega arith) hu in
      ap (times t (power i)) (sym e)
      ∙ times-power i j hi hj
      ∙ ap (λ (n : ℕ). power n) (omega arith)
      ∙ power_add j i
      ∙ ap (iter i) e

  -- The same for exponents of any size.
  times-power_any : (i j : ℕ) → times t (power i) (power j) ≡ power (i + j)
  times-power_any i j =
      ap₂ (times t) (sym (power_mod i)) (sym (power_mod j))
      ∙ times-power (i % 65535) (j % 65535) (omega arith) (omega arith)
      ∙ sym (power_mod (i % 65535 + j % 65535))
      ∙ ap (λ (n : ℕ). power n) (omega arith)
      ∙ power_mod (i + j)

  -- Products are uint16s.
  pub times-lt : (u v : T) → u < 2 ^ 16 → v < 2 ^ 16 → times t u v < 2 ^ 16
  times-lt u v hu hv = elim (power-cases u hu) [
    | inl e ↦ rw (e, zero-times v) (omega arith)
    | inr (i, hi, e) ↦ rw (← e, times-iter i v hi hv) (iter-lt i v hv)
  ]

  pub times_comm : (u v : T) → u < 2 ^ 16 → v < 2 ^ 16 → times t u v ≡ times t v u
  times_comm u v hu hv = elim (power-cases u hu) [
    | inl e ↦ rw e (zero-times v ∙ sym (times-zero v))
    | inr (i, hi, e) ↦ elim (power-cases v hv) [
      | inl e' ↦ rw e' (times-zero u ∙ sym (zero-times u))
      | inr (j, hj, e') ↦
          rw (← e, ← e')
            (times-power_any i j
              ∙ ap (λ (n : ℕ). power n) (omega arith)
              ∙ sym (times-power_any j i))
    ]
  ]

  pub times_assoc :
      (u v w : T)
      → u < 2 ^ 16
      → v < 2 ^ 16
      → w < 2 ^ 16
      → times t (times t u v) w ≡ times t u (times t v w)
  times_assoc u v w hu hv hw = elim (power-cases u hu) [
    | inl e ↦ rw e (simp zero-times)
    | inr (i, hi, e) ↦ elim (power-cases v hv) [
      | inl e' ↦ rw e' (simp (zero-times, times-zero))
      | inr (j, hj, e') ↦
          let over : times t u v ≡ power (i + j) =
            ap₂ (times t) (sym e) (sym e') ∙ times-power_any i j in
          ap (λ x. times t x w) over
          ∙ ap (λ x. times t x w) (sym (power_mod (i + j)))
          ∙ times-iter ((i + j) % 65535) w (omega arith) hw
          ∙ iter_mod i j w hi hj hw
          ∙ sym (ap (iter i) (ap (λ x. times t x w) (sym e') ∙ times-iter j w hj hw))
          ∙ sym (
              ap (λ x. times t x (times t v w)) (sym e)
              ∙ times-iter i (times t v w) hi (times-lt v w hv hw))
    ]
  ]

  pub one-times : (u : T) → u < 2 ^ 16 → times t 1 u ≡ u
  one-times u h = unfold iter in times-iter 0 u (omega arith) h

  -- Times distributes over Plus.
  pub times-plus :
      (u v w : T)
      → u < 2 ^ 16
      → v < 2 ^ 16
      → w < 2 ^ 16
      → times t u (plus v w) ≡ plus (times t u v) (times t u w)
  unfolding plus
  times-plus u v w hu hv hw = elim (power-cases u hu) [
    | inl e ↦ rw e (zero-times (bit_xor v w) ∙ sym (ap₂ bit_xor (zero-times v) (zero-times w)))
    | inr (i, hi, e) ↦ rw (← e) (
        times-iter i (bit_xor v w) hi (bit_xor-lt 16 v w hv hw)
        ∙ iter_linear i v w hv hw
        ∙ sym (ap₂ bit_xor (times-iter i v hi hv) (times-iter i w hi hw)))
  ]

  -- Inverse panics on zero alone, and gives the inverse of any other element.
  pub inverse-times :
      (u : T)
      → u < 2 ^ 16
      → 0 < u
      → (v : T) × (inverse t u ≡ some v) × (v < 2 ^ 16) × (0 < v) × (times t u v ≡ 1)
  unfolding inverse
  inverse-times u h pos =
      let (i, hi, e) = power_surjective u pos h in
      let v = t.exp ((65535 - i) % 65535) in
      let value : v ≡ power (65535 - i) = exp_power (65535 - i) in
      let log : t.log (pred16 u) ≡ i =
        ap (λ (x : ℕ). t.log (pred16 x)) (sym e) ∙ full.log_below i hi in
      let unit : times t u v ≡ 1 =
        ap₂ (times t) (sym e) value
        ∙ times-power_any i (65535 - i)
        ∙ ap (λ (n : ℕ). power n) (omega arith)
        ∙ power_order in
      (
        v,
        ground (arith, log),
        omega (arith, value, power-lt (65535 - i)),
        omega (arith, value, power_pos (65535 - i)),
        unit,
      )

  -- Div is the product with the inverse, and panics where Inverse does.
  pub div-times-inverse :
      (u v : T) → u < 2 ^ 16 → v < 2 ^ 16 → div t u v ≡ Option.map (times t u) (inverse t v)
  unfolding div inverse
  div-times-inverse u zero hu hv = refl
  div-times-inverse u (suc v) hu hv =
      let (j, hj, e) = power_surjective (suc v) (omega arith) hv in
      let log : t.log (pred16 (suc v)) ≡ j =
        ap (λ (x : ℕ). t.log (pred16 x)) (sym e) ∙ full.log_below j hj in
      elim (power-cases u hu) [
        | inl e' ↦
            rw e' (ground (arith, zero-times (t.exp ((65535 - t.log (pred16 (suc v))) % 65535))))
        | inr (i, hi, e') ↦
            let log' : t.log (pred16 u) ≡ i =
              ap (λ (x : ℕ). t.log (pred16 x)) (sym e') ∙ full.log_below i hi in
            let product : times t u (t.exp ((65535 - j) % 65535)) ≡ power (i + (65535 - j)) =
              ap₂ (times t) (sym e') (exp_power (65535 - j)) ∙ times-power_any i (65535 - j) in
            let quotient : t.exp ((i + 65535 - j) % 65535) ≡ power (i + (65535 - j)) =
              exp_power (i + 65535 - j) ∙ ap (λ (n : ℕ). power n) (omega arith) in
            ground (arith, log, log', product, quotient, power_pos i)
      ]

  -- The product of `n` copies of `u`.
  abbrev pub repeated : T → ℕ → T
  repeated u zero = 1
  repeated u (suc n) = times t u (repeated u n)

  repeated-power : (i n : ℕ) → repeated (power i) n ≡ power (i * n)
  repeated-power i zero =
      let e : i * 0 ≡ 0 = omega arith in unfold iter in sym (ap (λ (n : ℕ). power n) e)
  repeated-power i (suc n) =
      ap (times t (power i)) (repeated-power i n)
      ∙ times-power_any i (i * n)
      ∙ ap (λ (n : ℕ). power n) (omega arith)

  -- Pow is the repeated product, for every exponent that is a uint32.
  pub pow-repeated : (u : T) (p : ℕ) → u < 2 ^ 16 → p < 2 ^ 32 → pow t u p ≡ repeated u p
  unfolding pow
  pow-repeated zero zero hu hp = refl
  pow-repeated zero (suc p) hu hp = ground (arith, zero-times (repeated 0 p))
  pow-repeated (suc u) p hu hp =
      let (i, hi, e) = power_surjective (suc u) (omega arith) hu in
      let log : t.log (pred16 (suc u)) ≡ i =
        ap (λ (x : ℕ). t.log (pred16 x)) (sym e) ∙ full.log_below i hi in
      let bound : i * p ≤ 65535 * 2 ^ 32 =
        mul-le-mul {n₁ = i} {m₁ = p} {n₂ = 65535} {m₂ = 2 ^ 32} (omega arith) (omega arith) in
      let small : i * p % 2 ^ 64 ≡ i * p = mod-eq_of_lt (omega arith) in
      let first : pow t (suc u) p ≡ t.exp (t.log (pred16 (suc u)) * p % 2 ^ 64 % 65535) =
        ground arith in
      first
      ∙ ap (λ (l : ℕ). t.exp (l * p % 2 ^ 64 % 65535)) log
      ∙ ap (λ (n : ℕ). t.exp (n % 65535)) small
      ∙ exp_power (i * p)
      ∙ sym (repeated-power i p)
      ∙ ap (λ x. repeated x p) e
