-- ===== src/Common/Pigeonhole.antt =====
-- A map of the numbers below `n` into themselves that is one to one reaches every one of them.
use gopar.Common.{ℕ, zero, suc, ◌<◌, ◌≡◌, ◌==◌, if◌then◌else◌, inl, inr, Bool-cases, arith}

-- `f`, with the value `n` passed on to the value at `n`.
abbrev detour : ℕ → (ℕ → ℕ) → ℕ → ℕ
detour n f i = if f i == n then f n else f i

pub pigeonhole :
    (n : ℕ) (f : ℕ → ℕ)
    → ((i : ℕ) → i < n → f i < n)
    → ((i j : ℕ) → i < n → j < n → f i ≡ f j → i ≡ j)
    → (y : ℕ) → y < n
    → (i : ℕ) × (i < n) × (f i ≡ y)
pigeonhole zero f bound inj y hy = absurd (omega arith)
pigeonhole (suc n) f bound inj y hy = elim (Bool-cases (f n == y)) [
  | inl e ↦ (n, omega arith, ground arith)
  | inr ne ↦
      let target_bound : target < n = ground (arith, bound n) in
      let (i, hi, e) = pigeonhole n (detour n f) detour_bound detour_inj target target_bound in
      (i, omega arith, ground (arith, inj i n))
]
  where
    target : ℕ
    target = if y == n then f n else y

    detour_bound : (i : ℕ) → i < n → detour n f i < n
    detour_bound i h = ground (arith, bound i, bound n, inj i n)

    detour_inj : (i j : ℕ) → i < n → j < n → detour n f i ≡ detour n f j → i ≡ j
    detour_inj i j hi hj e = ground (arith, inj i n, inj j n, inj i j)
