-- ===== src/Rsec16/ParityMatrix/Cauchy.antt =====
-- NewCoderCauchy: the coder that it makes, and the matrix of this coder.
use gopar.Common.{
  ℕ, ◌+◌, ◌%◌, ◌^◌, ◌<◌, ◌≤◌, ◌≡◌, ◌≢◌, ◌↔◌, ◌∙◌, ap, sym, refl, ◌==◌, true, false, some, arith,
  Bool-cases, inl, inr,
}
use native.Mathlib.Decide.{dec_lt}
use native.Mathlib.Nat.{mod-eq_of_lt}
use gopar.Gf2p16.Algebra.{Field, add_cancel}
use gopar.Gf2p16.Element.{Element}
use gopar.Gf2p16.Matrix.{Matrix, elem}
use gopar.Gf2p16.Matrix.Function.{new_matrix_from_function-elem}
use gopar.Gf2p16.Matrix.Solutions.{HasShape}
use gopar.Rsec16.Coder.{Coder}
use gopar.Rsec16.ParityMatrix.{
  panicked, too_many_shards, made, finish_coder, try_inverse, int_sum, too_many, new_cauchy_matrix,
  new_cauchy_parity_matrix, new_coder_cauchy, number,
}
use gopar.Rsec16.ParityMatrix.Fill.{try_matrix_from_function_lem}

too_many-few : (d p : ℕ) → d + p < 2 ^ 16 → too_many (int_sum d p) ≡ false
unfolding too_many int_sum
too_many-few d p few =
    let same : (d + p) % 2 ^ 64 ≡ d + p = mod-eq_of_lt (omega arith) in ground arith

too_many-many : (d p : ℕ) → 2 ^ 16 ≤ d + p → d + p < 2 ^ 63 → too_many (int_sum d p) ≡ true
unfolding too_many int_sum
too_many-many d p many small =
    let same : (d + p) % 2 ^ 64 ≡ d + p = mod-eq_of_lt (omega arith) in ground arith

module _ (K : Field) (element : ℕ → Field.F K)
    (distinct : (a b : ℕ) → a < 2 ^ 16 → b < 2 ^ 16 → element a ≡ element b → a ≡ b) where
  open K use {F, zero as o, one, add, mul, inv, is_zero, is_zero_iff, add_self, mul-inv}

  -- Elements whose sum is zero are one element.
  pub add-zero_eq : (a b : F) → add a b ≡ o → a ≡ b
  add-zero_eq a b h = sym (add_cancel K a b) ∙ ap (λ t. add t b) h ∙ K.zero-add b

  cauchy_sum-ne : (d i j : ℕ) → j < d → d + i < 2 ^ 16 → add (element (d + i)) (element j) ≢ o
  cauchy_sum-ne d i j hj h e =
      let same : d + i ≡ j =
        distinct (d + i) j h (omega arith) (add-zero_eq (element (d + i)) (element j) e) in
      absurd (omega arith)

  try_inverse-some : (a : F) → a ≢ o → try_inverse K element a ≡ some (inv a)
  unfolding try_inverse
  try_inverse-some a ne = elim (Bool-cases (is_zero a)) [
    | inl z ↦ absurd (ne ((is_zero_iff a).0 z))
    | inr nz ↦ rw nz
  ]

  -- An element of the Cauchy matrix, by which the sum that it inverts is multiplied to one.
  pub new_cauchy_parity_matrix-elem :
      (d p : ℕ)
      → 0 < d
      → 0 < p
      → d + p < 2 ^ 16
      → (m : Matrix F) × (new_cauchy_parity_matrix K element d p ≡ some m)
        × (HasShape p d m
            × ((i j : ℕ)
                → i < p
                → j < d
                → mul (add (element (d + i)) (element j)) (elem K m i j) ≡ one))
  unfolding new_cauchy_parity_matrix new_cauchy_matrix
  new_cauchy_parity_matrix-elem d p hd hp h =
      let g = λ (i j : ℕ). inv (add (element (d + i)) (element j)) in
      let (m, found, (shape, values)) = new_matrix_from_function-elem K p d g hp hd in
      (
        m,
        try_matrix_from_function_lem p d _ g hd
              (λ i j hi hj. try_inverse-some _ (cauchy_sum-ne d i j hj (omega arith))) hp
            ∙ found,
        (
          shape,
          λ i j hi hj.
              ap (mul (add (element (d + i)) (element j))) (values i j hi hj)
              ∙ mul-inv _ (cauchy_sum-ne d i j hj (omega arith)),
        ),
      )

  -- NewCoderCauchy with counts that are positive makes a coder where there are fewer than 2^16
  -- shards together: its parity matrix has a row for each parity shard and a column for each data
  -- shard, and each of its elements is the inverse of the sum of its row's and its column's element.
  pub new_coder_cauchy-made :
      (d p g : ℕ)
      → 0 < d
      → 0 < p
      → 0 < g
      → d + p < 2 ^ 16
      → (c : Coder F) × (new_coder_cauchy K element d p g ≡ made c)
        × ((c.data_shards ≡ d) × (c.parity_shards ≡ p) × (c.num_goroutines ≡ g))
        × (HasShape p d c.parity_matrix
            × ((i j : ℕ)
                → i < p
                → j < d
                → mul (add (element (d + i)) (element j)) (elem K c.parity_matrix i j) ≡ one))
  unfolding new_coder_cauchy finish_coder
  new_coder_cauchy-made d p g hd hp hg few =
      let z1 : (d == 0) ≡ false = ground arith in
      let z2 : (p == 0) ≡ false = ground arith in
      let z3 : (g == 0) ≡ false = ground arith in
      let fits = too_many-few d p few in
      let (m, found, rest) = new_cauchy_parity_matrix-elem d p hd hp few in
      (
        record { data_shards = d; parity_shards = p; num_goroutines = g; parity_matrix = m },
        rw (z1, z2, z3, fits, found) refl,
        (refl, refl, refl),
        rest,
      )

  -- With positive counts whose sum is an int, NewCoderCauchy returns its error exactly where there
  -- are 2^16 shards or more together, and it panics in no such case.
  pub new_coder_cauchy-too_many_shards :
      (d p g : ℕ)
      → 0 < d
      → 0 < p
      → 0 < g
      → d + p < 2 ^ 63
      → ((new_coder_cauchy K element d p g ≡ too_many_shards) ↔ (2 ^ 16 ≤ d + p))
        × (new_coder_cauchy K element d p g ≢ panicked)
  unfolding new_coder_cauchy
  new_coder_cauchy-too_many_shards d p g hd hp hg small =
      let z1 : (d == 0) ≡ false = ground arith in
      let z2 : (p == 0) ≡ false = ground arith in
      let z3 : (g == 0) ≡ false = ground arith in
      elim (dec_lt (d + p) (2 ^ 16)) [
        | yes few ↦
            let (c, made_c, counts, rest) = new_coder_cauchy-made d p g hd hp hg few in
            (
              (λ e. absurd (ground (arith, made_c, e)), λ e. absurd (omega arith)),
              λ e. absurd (ground (arith, made_c, e)),
            )
        | no many ↦
            let big = too_many-many d p (omega arith) small in
            let all : new_coder_cauchy K element d p g ≡ too_many_shards =
              rw (z1, z2, z3, big) refl in
            ((λ e. omega arith, λ e. all), λ e. absurd (ground (arith, all, e)))
      ]

-- The numbers below 2^16 are different elements.
pub number-injective : (a b : ℕ) → a < 2 ^ 16 → b < 2 ^ 16 → number a ≡ number b → a ≡ b
unfolding number
number-injective a b ha hb e = sym (mod-eq_of_lt ha) ∙ ap (λ (x : Element). x.0) e ∙ mod-eq_of_lt hb
