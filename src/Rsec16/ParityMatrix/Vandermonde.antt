-- ===== src/Rsec16/ParityMatrix/Vandermonde.antt =====
-- NewCoderPAR2Vandermonde: the coder that it makes, and the matrix of this coder.
use gopar.Common.{
  ℕ, zero, suc, ◌+◌, ◌-◌, ◌*◌, ◌^◌, ◌<◌, ◌≤◌, ◌≡◌, ◌≢◌, ◌↔◌, ◌∙◌, ap, refl, ◌==◌, ltb, true, false,
  some, List, [], ◌∷◌, length, get_elem?, get_or, All, arith, Bool-cases, inl, inr,
}
use mathlib.Core.Option
use native.Mathlib.Decide.{dec_lt}
use gopar.Gf2p16.T.{T, Tables, pow}
use gopar.Gf2p16.T.Init.{IsFilled}
use gopar.Gf2p16.T.Field.{repeated, pow-repeated, times-lt}
use gopar.Gf2p16.Matrix.{new_matrix_from_function, fill}
use gopar.Gf2p16.Matrix.Function.{new_matrix_from_function-some}
use gopar.Rsec16.Coder.{Coder}
use gopar.Rsec16.ParityMatrix.{
  panicked, too_many_data_shards, too_many_parity_shards, made, finish_coder, is_generator_index,
  generators_from, generators, vandermonde_elem, new_vandermonde_matrix, new_coder_par2_vandermonde,
}
use gopar.Rsec16.ParityMatrix.Fill.{try_matrix_from_function_lem}

module _ (t : Tables) (full : IsFilled 65535 t) where
  repeated-lt : (u : T) (n : ℕ) → u < 2 ^ 16 → repeated t full u n < 2 ^ 16
  repeated-lt u zero h = omega arith
  repeated-lt u (suc n) h = times-lt t full u (repeated t full u n) h (repeated-lt u n h)

  generators_from-lt :
      (n i : ℕ) → n + i ≤ 2 ^ 16 → All (λ (g : T). g < 2 ^ 16) (generators_from t n i)
  unfolding generators_from
  generators_from-lt zero i h = tt
  generators_from-lt (suc n) i h = elim (Bool-cases (is_generator_index i)) [
    | inl e ↦ rw e (
      rw (pow-repeated t full 2 i (omega arith) (omega arith)) (repeated-lt 2 i (omega arith)),
      generators_from-lt n (i + 1) (omega arith),
    )
    | inr e ↦ rw e (generators_from-lt n (i + 1) (omega arith))
  ]

  get_elem?-some :
      (P : T → Type 0) (xs : List T) (j : ℕ)
      → All P xs
      → j < length xs
      → (get_elem? xs j ≡ some (get_or xs j 0)) × P (get_or xs j 0)
  get_elem?-some P [] j h lt = absurd (omega arith)
  get_elem?-some P (x ∷ xs) zero h lt = (refl, h.0)
  get_elem?-some P (x ∷ xs) (suc j) h lt = get_elem?-some P xs j h.1 (omega arith)

  generator :
      (j : ℕ)
      → j < length (generators t)
      → (get_elem? (generators t) j ≡ some (get_or (generators t) j 0))
        × (get_or (generators t) j 0 < 2 ^ 16)
  unfolding generators
  generator j h =
      get_elem?-some (λ g. g < 2 ^ 16) (generators t) j
        (generators_from-lt (2 ^ 16) 0 (omega arith)) h

module _ {F : Type 0} (t : Tables) (full : IsFilled 65535 t) (element : T → F) where
  -- NewCoderPAR2Vandermonde with positive counts, no more data shards than there are generators
  -- and fewer than 2^16 parity shards makes a coder with the matrix whose element in row i and
  -- column j is the i-th power of the j-th generator.
  pub new_coder_par2_vandermonde-made :
      (d p g : ℕ)
      → 0 < d
      → 0 < p
      → 0 < g
      → d ≤ length (generators t)
      → p < 2 ^ 16
      → (c : Coder F) × (new_coder_par2_vandermonde t element d p g ≡ made c)
        × ((c.data_shards ≡ d) × (c.parity_shards ≡ p) × (c.num_goroutines ≡ g))
        × (new_matrix_from_function p d
              (λ i j. element (repeated t full (get_or (generators t) j 0) i))
            ≡ some c.parity_matrix)
  unfolding new_coder_par2_vandermonde finish_coder new_vandermonde_matrix vandermonde_elem
  new_coder_par2_vandermonde-made d p g hd hp hg hgen few =
      let z1 : (d == 0) ≡ false = ground arith in
      let z2 : (p == 0) ≡ false = ground arith in
      let z3 : (g == 0) ≡ false = ground arith in
      let some_generators : ltb (length (generators t)) d ≡ false = ground arith in
      let fits : ltb (2 ^ 16 - 1) p ≡ false = ground arith in
      let fn = λ (i j : ℕ). element (repeated t full (get_or (generators t) j 0) i) in
      let value = λ (i j : ℕ) (hi : i < p) (hj : j < d).
        let (found, lt) = generator t full j (omega arith) in
        ap (Option.map (λ g. element (pow t g i))) found
        ∙ ap (λ x. some (element x))
            (pow-repeated t full (get_or (generators t) j 0) i lt (omega arith)) in
      let same = try_matrix_from_function_lem p d (vandermonde_elem t element) fn hd value hp in
      (
        record {
          data_shards = d;
          parity_shards = p;
          num_goroutines = g;
          parity_matrix = record { rows = p; columns = d; elements = fill (p * d) 0 d fn };
        },
        rw (z1, z2, z3, some_generators, fits, same, new_matrix_from_function-some p d fn hp hd)
            refl,
        (refl, refl, refl),
        new_matrix_from_function-some p d fn hp hd,
      )

  -- With positive counts, NewCoderPAR2Vandermonde returns its first error exactly where there are
  -- more data shards than generators, its second where there are not and 2^16 parity shards or
  -- more, and it panics in no case.
  pub new_coder_par2_vandermonde-errors :
      (d p g : ℕ)
      → 0 < d
      → 0 < p
      → 0 < g
      → ((new_coder_par2_vandermonde t element d p g ≡ too_many_data_shards)
          ↔ (length (generators t) < d))
        × (((new_coder_par2_vandermonde t element d p g ≡ too_many_parity_shards)
              ↔ ((d ≤ length (generators t)) × (2 ^ 16 ≤ p)))
            × (new_coder_par2_vandermonde t element d p g ≢ panicked))
  unfolding new_coder_par2_vandermonde
  new_coder_par2_vandermonde-errors d p g hd hp hg =
      let z1 : (d == 0) ≡ false = ground arith in
      let z2 : (p == 0) ≡ false = ground arith in
      let z3 : (g == 0) ≡ false = ground arith in
      elim (dec_lt (length (generators t)) d) [
        | yes more ↦
            let test : ltb (length (generators t)) d ≡ true = ground arith in
            let all : new_coder_par2_vandermonde t element d p g ≡ too_many_data_shards =
              rw (z1, z2, z3, test) refl in
            (
              (λ e. more, λ e. all),
              (
                (λ e. absurd (ground (arith, all, e)), λ e. absurd (omega (arith, e.0))),
                λ e. absurd (ground (arith, all, e)),
              ),
            )
        | no enough ↦ elim (dec_lt p (2 ^ 16)) [
          | no many ↦
              let test : ltb (length (generators t)) d ≡ false = ground arith in
              let test' : ltb (2 ^ 16 - 1) p ≡ true = ground arith in
              let all : new_coder_par2_vandermonde t element d p g ≡ too_many_parity_shards =
                rw (z1, z2, z3, test, test') refl in
              (
                (λ e. absurd (ground (arith, all, e)), λ e. absurd (omega arith)),
                ((λ e. (omega arith, omega arith), λ e. all), λ e. absurd (ground (arith, all, e))),
              )
          | yes few ↦
              let (c, all, counts, rest) =
                new_coder_par2_vandermonde-made d p g hd hp hg (omega arith) few in
              (
                (λ e. absurd (ground (arith, all, e)), λ e. absurd (omega arith)),
                (
                  (λ e. absurd (ground (arith, all, e)), λ e. absurd (omega (arith, e.1))),
                  λ e. absurd (ground (arith, all, e)),
                ),
              )
        ]
      ]
