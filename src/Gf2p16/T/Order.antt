-- ===== src/Gf2p16/T/Order.antt =====
-- g = 3 generates the group of the elements other than zero: its powers are 1 again after 65535
-- steps and not before, and they reach each of the elements once.
use gopar.Common.{
  ℕ, zero, suc, ◌+◌, ◌-◌, ◌*◌, ◌/◌, ◌%◌, ◌^◌, ◌<◌, ◌==◌, ◌≡◌, ◌≢◌, refl, sym, ap, ◌∙◌, arith, true,
  false,
}
use native.Mathlib.Decide.{dec_lt}
use gopar.Common.Pigeonhole.{pigeonhole}
use gopar.Gf2p16.T.Triple.{triple, iter, iter_add, iter-zero, power, power-lt}

-- The result of `n` steps, or 0 where one of the numbers before it is 1.
walk : ℕ → ℕ → ℕ
walk zero x = x
walk (suc n) x = elim (x == 1) [ true ↦ 0 | false ↦ walk n (triple x) ]

walk-suc : (n x : ℕ) → x ≢ 1 → walk (suc n) x ≡ walk n (triple x)
unfolding walk
walk-suc n x ne = ground arith

walk-one : (n : ℕ) → walk (suc n) 1 ≡ 0
unfolding walk
walk-one n = refl

walk-ne-one : (n x : ℕ) → walk (suc n) x ≡ 1 → x ≢ 1
walk-ne-one n x e one = absurd (omega (arith, sym (ap (walk (suc n)) one ∙ walk-one n) ∙ e))

walk_lem : (n x : ℕ) → walk n x ≡ 1 → iter n x ≡ 1
unfolding iter
walk_lem zero x e = unfold walk in e
walk_lem (suc n) x e = walk_lem n (triple x) (sym (walk-suc n x (walk-ne-one n x e)) ∙ e)

walk_before : (n x : ℕ) → walk n x ≡ 1 → (k : ℕ) → k < n → iter k x ≢ 1
unfolding iter
walk_before zero x e k h = absurd (omega arith)
walk_before (suc n) x e zero h = walk-ne-one n x e
walk_before (suc n) x e (suc k) h =
    walk_before n (triple x) (sym (walk-suc n x (walk-ne-one n x e)) ∙ e) k (omega arith)

walk_round : walk 65534 3 ≡ 1
unfolding walk triple
walk_round = refl

iter-after_one : (n : ℕ) → power (suc n) ≡ iter n 3
unfolding iter triple
iter-after_one n = refl

pub power_order : power 65535 ≡ 1
power_order = iter-after_one 65534 ∙ walk_lem 65534 3 walk_round

power-ne-one : (d : ℕ) → 0 < d → d < 65535 → power d ≢ 1
power-ne-one zero pos h e = absurd (omega arith)
power-ne-one (suc k) pos h e =
    walk_before 65534 3 walk_round k (omega arith) (sym (iter-after_one k) ∙ e)

power_period : (n : ℕ) → power (65535 + n) ≡ power n
power_period n = iter_add 65535 n 1 ∙ ap (iter n) power_order

power_multiple : (q r : ℕ) → power (q * 65535 + r) ≡ power r
power_multiple zero r = ap (λ (t : ℕ). power t) (omega arith)
power_multiple (suc q) r =
    ap (λ (t : ℕ). power t) (omega arith) ∙ power_period (q * 65535 + r) ∙ power_multiple q r

-- Exponents count modulo the order.
pub power_mod : (n : ℕ) → power (n % 65535) ≡ power n
power_mod n = sym (power_multiple (n / 65535) (n % 65535)) ∙ ap (λ (t : ℕ). power t) (omega arith)

pub power_add : (a b : ℕ) → power (a + b) ≡ iter b (power a)
power_add a b = iter_add a b 1

power-ne : (a b : ℕ) → a < b → b < 65535 → power a ≢ power b
power-ne a b lt h e =
    let rest = 65535 - b in
    let whole : power (b + rest) ≡ 1 = ap (λ (t : ℕ). power t) (omega arith) ∙ power_order in
    power-ne-one (a + rest) (omega arith) (omega arith)
      (power_add a rest ∙ ap (iter rest) e ∙ sym (power_add b rest) ∙ whole)

pub power-injective : (a b : ℕ) → a < 65535 → b < 65535 → power a ≡ power b → a ≡ b
power-injective a b ha hb e = elim (dec_lt a b) [
  | yes lt ↦ absurd (power-ne a b lt hb e)
  | no ge ↦ elim (dec_lt b a) [ yes lt ↦ absurd (power-ne b a lt ha (sym e)) | no le ↦ omega arith ]
]

pub power-ne-zero : (p : ℕ) → p < 65535 → power p ≢ 0
power-ne-zero p h e =
    let rest = 65535 - p in
    let whole : power (p + rest) ≡ 1 = ap (λ (t : ℕ). power t) (omega arith) ∙ power_order in
    absurd (omega (arith, sym whole ∙ power_add p rest ∙ ap (iter rest) e ∙ iter-zero rest))

-- Every element other than zero is a power of g.
pub power_surjective : (t : ℕ) → 0 < t → t < 2 ^ 16 → (p : ℕ) × (p < 65535) × (power p ≡ t)
power_surjective t pos h =
    let (p, hp, e) =
      pigeonhole 65535 (λ p. power p - 1) (λ p hp. omega (arith, power-lt p))
        (λ a b ha hb e.
          power-injective a b ha hb (omega (arith, power-ne-zero a ha, power-ne-zero b hb)))
        (t - 1) (omega arith) in
    (p, hp, omega (arith, power-ne-zero p hp))

pub power_pos : (p : ℕ) → 0 < power p
power_pos p = omega (arith, power_mod p, power-ne-zero (p % 65535) (omega arith))
