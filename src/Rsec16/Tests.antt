-- ===== src/Rsec16/Tests.antt =====
-- The theorems at concrete inputs, over the smallest field of characteristic two.
pub mod Coders
use gopar.Common.{
  ℕ, zero, suc, ◌⊎◌, Option, none, some, ◌<◌, ◌≤◌, ◌≡◌, refl, Bool, true, false, some, List, [],
  ◌∷◌, length, replicate, get_or, All, Mem, arith, inl, inr,
}
use native.Mathlib.Decide.{ℕ_discrete}
use gopar.Gf2p16.Tests.{bits}
use gopar.Gf2p16.Matrix.{Matrix, elem}
use gopar.Gf2p16.Matrix.Solutions.{HasShape}
use gopar.Rsec16.Matrix.{apply_matrix_single, apply_matrix_parallel_data}
use gopar.Rsec16.Matrix.Shares.{IsSchedule}
use gopar.Rsec16.Matrix.Product.{HaveLength, product}
use gopar.Rsec16.Matrix.Writes.{cell}
use gopar.Rsec16.Matrix.Parallel.{
  IsProduct, apply_matrix_single-IsProduct, apply_matrix_parallel_data-single,
}
use gopar.Rsec16.Reconstruct.{
  available_shards, used_parity_shards, reconstruct_data, reconstructed, not_enough_parity_shards,
  singular_matrix,
}
use gopar.Rsec16.Reconstruct.Data.{reconstruct_data-whole}
use gopar.Gf2p16.Algebra.{sum}
use gopar.Rsec16.Coder.{Coder, generate_parity, generate_parity-product}

abbrev one_row : Matrix Bool
one_row = record { rows = 1; columns = 2; elements = true ∷ true ∷ [] }

one_row-HasShape : HasShape 1 2 one_row
one_row-HasShape = record { rows_eq = refl; columns_eq = refl; valid = record { area = refl } }

-- Twelve elements, so two shares.
abbrev ones : List Bool
ones = replicate 12 true

abbrev zeros : List Bool
zeros = replicate 12 false

-- The goroutines from the last to the first.
abbrev pub backwards : ℕ → List ℕ
backwards zero = []
backwards (suc n) = n ∷ backwards n

backwards-starts : (count i : ℕ) → i < count → Mem i (backwards count)
backwards-starts zero i h = absurd (omega arith)
backwards-starts (suc n) i h = elim (ℕ_discrete i n) [
  | yes e ↦ inl e
  | no ne ↦ inr (backwards-starts n i (omega arith))
]

below-All : (n m : ℕ) → n ≤ m → All (λ i. i < m) (backwards n)
below-All zero m h = tt
below-All (suc n) m h = (omega arith, below-All n m (omega arith))

backwards-IsSchedule : IsSchedule backwards
backwards-IsSchedule = record {
  starts = backwards-starts;
  only = λ count. below-All count count (omega arith);
}

apply_matrix_single-IsProduct_example :
    (out' : List (List Bool)) × (apply_matrix_single bits one_row (ones ∷ zeros ∷ []) (zeros ∷ [])
      ≡ some out')
    × IsProduct bits one_row ones (zeros ∷ []) 12 (refl, (refl, tt)) (zeros ∷ []) out'
apply_matrix_single-IsProduct_example =
    apply_matrix_single-IsProduct bits one_row ones (zeros ∷ []) 12 (refl, (refl, tt)) (zeros ∷ [])
      (refl, tt) (omega arith) (omega arith) (omega arith)

apply_matrix_parallel_data-single_example :
    apply_matrix_parallel_data bits backwards one_row (ones ∷ zeros ∷ []) (zeros ∷ []) 3
    ≡ apply_matrix_single bits one_row (ones ∷ zeros ∷ []) (zeros ∷ [])
apply_matrix_parallel_data-single_example =
    apply_matrix_parallel_data-single bits one_row ones (zeros ∷ []) 12 (refl, (refl, tt)) backwards
      (zeros ∷ []) 3 backwards-IsSchedule (refl, tt) (omega arith) (omega arith)

abbrev coder : Coder Bool
coder = record { data_shards = 2; parity_shards = 1; num_goroutines = 3; parity_matrix = one_row }

generate_parity-product_example :
    (parity : List (List Bool)) × (generate_parity bits backwards coder (ones ∷ zeros ∷ [])
      ≡ some parity)
    × (HaveLength 12 parity
        × ((length parity ≡ 1)
            × ((i p : ℕ)
                → i < 1
                → p < 12
                → cell bits parity i p ≡ product bits one_row (ones ∷ zeros ∷ []) i p)))
generate_parity-product_example =
    generate_parity-product bits backwards coder ones (zeros ∷ []) 12 backwards-IsSchedule
      (refl, (refl, tt)) (omega arith) (omega arith) one_row-HasShape refl

abbrev data_of : ℕ → List Bool
data_of zero = ones
data_of (suc i) = zeros

-- The first data shard is missing, and the parity shard is there.
abbrev one_missing : List (Option (List Bool))
one_missing = none ∷ some zeros ∷ []

abbrev parity_of : ℕ → List Bool
parity_of i = ones

data_of-size : (i : ℕ) → length (data_of i) ≡ 12
data_of-size zero = refl
data_of-size (suc i) = refl

get_or-replicate : (n p : ℕ) (b : Bool) → p < n → get_or (replicate n b) p false ≡ b
get_or-replicate zero p b h = absurd (omega arith)
get_or-replicate (suc n) zero b h = refl
get_or-replicate (suc n) (suc p) b h = get_or-replicate n p b (omega arith)

parity_of-sum :
    (i p : ℕ)
    → i < 1
    → p < 12
    → get_or (parity_of i) p false
      ≡ sum bits 2 (λ a. bits.mul (elem bits one_row i a) (get_or (data_of a) p false))
unfolding sum elem
parity_of-sum zero p hi hp = rw (get_or-replicate 12 p true hp, get_or-replicate 12 p false hp)
parity_of-sum (suc i) p hi hp = absurd (omega arith)

reconstruct_data-whole_example :
    ((2 < 2)
      × (reconstruct_data bits backwards coder one_missing (some ones ∷ [])
          ≡ not_enough_parity_shards))
    ⊎ ((reconstruct_data bits backwards coder one_missing (some ones ∷ []) ≡ singular_matrix)
        ⊎ (reconstruct_data bits backwards coder one_missing (some ones ∷ [])
            ≡ reconstructed (some ones ∷ some zeros ∷ [])))
unfolding available_shards used_parity_shards
reconstruct_data-whole_example =
    reconstruct_data-whole bits backwards backwards-IsSchedule coder data_of parity_of one_missing
      (some ones ∷ []) 12 refl (omega arith) data_of-size (λ i lt. refl) parity_of-sum (refl, tt)
      (refl, tt) one_row-HasShape (omega arith)
