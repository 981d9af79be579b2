-- ===== src/Rsec16/Matrix/Shares.antt =====
-- The shares of the data that calculateParallelParams gives to the goroutines.
use gopar.Common.{
  ℕ, suc, ◌+◌, ◌-◌, ◌*◌, ◌/◌, ◌%◌, ◌<◌, ◌≤◌, ◌≡◌, sym, ap, ◌∙◌, ltb, Bool-cases, inl, inr, List, [],
  ◌∷◌, All, Mem, arith,
}
use native.Mathlib.Nat.{mul-le-mul_right, div-add-mod', mod-lt, mul_assoc}
use gopar.Rsec16.Matrix.{round_up, per_goroutine_length}

round_up_lem : (share : ℕ) → 16 ≤ share → (round_up share 16 % 2 ≡ 0) × (0 < round_up share 16)
unfolding round_up
round_up_lem share h = ground arith

-- The shares of the goroutines are even.
pub per_goroutine_length-even :
    (total n : ℕ)
    → (per_goroutine_length total n 16 16 % 2 ≡ 0) × (0 < per_goroutine_length total n 16 16)
unfolding per_goroutine_length
per_goroutine_length-even total n =
    let share = (total + n - 1) / n in
    elim (Bool-cases (ltb share 16)) [
      | inl t ↦ rw t (round_up_lem 16 (omega arith))
      | inr t ↦ rw t (round_up_lem share (ground arith))
    ]

-- With a least length and a divisor of one, a share holds a row.
pub per_goroutine_length-pos : (total n : ℕ) → 0 < per_goroutine_length total n 1 1
unfolding per_goroutine_length round_up
per_goroutine_length-pos total n = ground arith

pub even_product : (i per : ℕ) → per % 2 ≡ 0 → (i * per) % 2 ≡ 0
even_product i per even =
    let halves : i * per ≡ i * (per / 2) * 2 =
      ap (λ (n : ℕ). i * n) (omega arith) ∙ sym (mul_assoc i (per / 2) 2) in
    omega (arith, halves)

-- As many shares as are counted reach to the end, and the last one starts before it.
pub shares-cover :
    (total per : ℕ)
    → 0 < per
    → let count = (total + per - 1) / per in (count * per < total + per) × (total ≤ count * per)
shares-cover total per pos =
    let parts = div-add-mod' (total + per - 1) per in
    let small = mod-lt (total + per - 1) pos in
    (omega (arith, parts, small), omega (arith, parts, small))

-- A schedule starts each goroutine, and no other.
pub record IsSchedule (schedule : ℕ → List ℕ) : Type 0 where
  pub starts : (count i : ℕ) → i < count → Mem i (schedule count)
  pub only : (count : ℕ) → All (λ i. i < count) (schedule count)

share_starts : (total per count i : ℕ) → count * per < total + per → i < count → i * per ≤ total
share_starts total per count i h lt =
    let above : suc i * per ≤ count * per = mul-le-mul_right per lt in
    let next : suc i * per ≡ i * per + per = omega arith in omega arith

pub All-starts :
    (total per count : ℕ) (order : List ℕ)
    → count * per < total + per
    → All (λ i. i < count) order
    → All (λ i. i * per ≤ total) order
All-starts total per count [] h k = tt
All-starts total per count (i ∷ order) h k =
    (share_starts total per count i h k.0, All-starts total per count order h k.1)
