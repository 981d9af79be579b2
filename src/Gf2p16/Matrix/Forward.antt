-- ===== src/Gf2p16/Matrix/Forward.antt =====
-- The first loop of the reduction ends in row echelon form, or finds no pivot.
use gopar.Common.{
  ℕ, zero, suc, ◌+◌, ◌-◌, ◌<◌, ◌≤◌, ◌≡◌, ◌≢◌, sym, ap, ◌∙◌, arith, Option-cases, inl, inr, none,
  some,
}
use mathlib.Core.Path.{subst}
use mathlib.Core.Option.{some-injective}
use native.Mathlib.Decide.{ℕ_discrete}
use gopar.Gf2p16.Algebra.{Field}
use gopar.Gf2p16.Matrix.{Matrix, elem, Pair, find_pivot, clear, clear_rows, pivot_row, echelon}
use gopar.Gf2p16.Matrix.Solutions.{HasShape}
use gopar.Gf2p16.Matrix.Solves.{Solves, clear-Solves, clear_rows-Solves, pivot_row-Solves}
use gopar.Gf2p16.Matrix.Echelon.{
  IsEchelon, zero_step, clear_step, find_pivot_lem, elem-clear_self, elem-clear_ne, pivot_row-one,
  pivot_row-IsEchelon,
}

module _ (K : Field) where
  open K use {F, zero as o, one}

  -- Column `i` is cleared from the pivot's row down to row `j`.
  record IsCleared (r i j : ℕ) (m : Matrix F) : Type 0 where
    good : IsEchelon K r i m
    pivot : elem K m i i ≡ one
    column : (a : ℕ) → i < a → a < j → elem K m a i ≡ o

  clear-IsCleared :
      (r i j : ℕ) (s : Pair K)
      → i < j
      → j < r
      → HasShape r r s.left
      → IsCleared r i j s.left
      → IsCleared r i (j + 1) (clear K i j s).left
  clear-IsCleared r i j s lt hj h g =
      let hi : i < r = omega arith in
      record {
        good = record {
          diagonal = λ c hc.
              elem-clear_ne K r s h i j c c hi hj (omega arith) (omega arith)
              ∙ g.good.diagonal c hc;
          below = λ a c hc ca ha. elim (ℕ_discrete a j) [
            | yes e ↦
                ap (λ (b : ℕ). elem K (clear K i j s).left b c) e
                ∙ elem-clear_self K r s h i j c hi hj (omega arith)
                ∙ zero_step K (elem K s.left j i) (elem K s.left j c) (elem K s.left i c)
                    (g.good.below j c hc (omega arith) hj) (g.good.below i c hc hc hi)
            | no ne ↦
                elem-clear_ne K r s h i j a c hi hj (omega arith) ne ∙ g.good.below a c hc ca ha
          ];
        };
        pivot = elem-clear_ne K r s h i j i i hi hj hi (omega arith) ∙ g.pivot;
        column = λ a ia aj. elim (ℕ_discrete a j) [
          | yes e ↦
              ap (λ (b : ℕ). elem K (clear K i j s).left b i) e
              ∙ elem-clear_self K r s h i j i hi hj hi
              ∙ clear_step K (elem K s.left j i) (elem K s.left i i) g.pivot
          | no ne ↦ elem-clear_ne K r s h i j a i hi hj hi ne ∙ g.column a ia (omega arith)
        ];
      }

  module _ (r d : ℕ) (x y : ℕ → F) where
    clear_rows-IsCleared :
        (count j i : ℕ) (s : Pair K)
        → i < j
        → j + count ≡ r
        → Solves K r d x y s
        → IsCleared r i j s.left
        → IsCleared r i r (clear_rows K count j i s).left
    unfolding clear_rows
    clear_rows-IsCleared zero j i s lt e h g =
        let last : j ≡ r = omega arith in subst (λ k. IsCleared r i k s.left) last g
    clear_rows-IsCleared (suc count) j i s lt e h g =
        clear_rows-IsCleared count (j + 1) i (clear K i j s) (omega arith) (omega arith)
          (clear-Solves K r d x y i j s (omega arith) (omega arith) h)
          (clear-IsCleared r i j s lt (omega arith) h.left_shape g)

    echelon-some :
        (count i j : ℕ) (s : Pair K)
        → find_pivot K (s.left.rows - i) i i s.left ≡ some j
        → echelon K (suc count) i s
          ≡ echelon K count
              (i + 1)
              (clear_rows K ((pivot_row K i j s).left.rows - (i + 1)) (i + 1) i (pivot_row K i j s))
    unfolding echelon
    echelon-some count i j s e = rw (e, echelon)

    echelon-none :
        (count i : ℕ) (s : Pair K)
        → find_pivot K (s.left.rows - i) i i s.left ≡ none
        → echelon K (suc count) i s ≡ none
    unfolding echelon
    echelon-none count i s e = rw (e, echelon)

    -- A round: the pivot is at row `j`.
    round_result : ℕ → ℕ → Pair K → Pair K
    round_result i j s = clear_rows K (r - (i + 1)) (i + 1) i (pivot_row K i j s)

    round-Solves :
        (i j : ℕ) (s : Pair K)
        → i < r
        → j < r
        → Solves K r d x y s
        → Solves K r d x y (round_result i j s)
    unfolding round_result
    round-Solves i j s hi hj h =
        clear_rows-Solves K r d x y (r - (i + 1)) (i + 1) i (pivot_row K i j s) hi (omega arith)
          (pivot_row-Solves K r d x y i j s hi hj h)

    round-IsEchelon :
        (i j : ℕ) (s : Pair K)
        → i < r
        → i ≤ j
        → j < r
        → elem K s.left j i ≢ o
        → Solves K r d x y s
        → IsEchelon K r i s.left
        → IsEchelon K r (i + 1) (round_result i j s).left
    unfolding round_result
    round-IsEchelon i j s hi le hj ne h g =
        let done =
          clear_rows-IsCleared (r - (i + 1)) (i + 1) i (pivot_row K i j s) (omega arith)
            (omega arith) (pivot_row-Solves K r d x y i j s hi hj h)
            (record {
              good = pivot_row-IsEchelon K r s h.left_shape i j hi le hj g;
              pivot = pivot_row-one K r s h.left_shape i j hi le hj g ne;
              column = λ a lo hi'. absurd (omega arith);
            }) in
        record {
          diagonal = λ c hc. elim (ℕ_discrete c i) [
            | yes e ↦ rw e done.pivot
            | no ne' ↦ done.good.diagonal c (omega arith)
          ];
          below = λ a c hc ca ha. elim (ℕ_discrete c i) [
            | yes e ↦ rw e (done.column a (omega arith) ha)
            | no ne' ↦ done.good.below a c (omega arith) ca ha
          ];
        }

    pub echelon-IsEchelon :
        (count i : ℕ) (s s' : Pair K)
        → i + count ≡ r
        → Solves K r d x y s
        → IsEchelon K r i s.left
        → echelon K count i s ≡ some s'
        → Solves K r d x y s' × IsEchelon K r r s'.left
    echelon-IsEchelon zero i s s' e h g run =
        let last : i ≡ r = omega arith in
        let run' : some s ≡ some s' = unfold echelon in run in
        let same : s ≡ s' = some-injective s s' run' in
        subst (λ t. Solves K r d x y t × IsEchelon K r r t.left) same
          (h, subst (λ k. IsEchelon K r k s.left) last g)
    echelon-IsEchelon (suc count) i s s' e h g run =
        elim (Option-cases (find_pivot K (s.left.rows - i) i i s.left)) [
          | inl lost ↦ absurd (cc (echelon-none count i s lost, run))
          | inr (j, found) ↦
              let rows : s.left.rows ≡ r = h.left_shape.rows_eq in
              let (le, hj, ne) = find_pivot_lem K (s.left.rows - i) i i s.left j found in
              let hi : i < r = omega arith in
              let hj' : j < r = omega arith in
              let rows' : (pivot_row K i j s).left.rows ≡ r =
                (pivot_row-Solves K r d x y i j s hi hj' h).left_shape.rows_eq in
              let step : echelon K (suc count) i s ≡ echelon K count (i + 1) (round_result i j s) =
                echelon-some count i j s found
                ∙ unfold round_result in
                  ap
                    (λ (n : ℕ).
                      echelon K count (i + 1)
                        (clear_rows K (n - (i + 1)) (i + 1) i (pivot_row K i j s)))
                    rows' in
              echelon-IsEchelon count (i + 1) (round_result i j s) s' (omega arith)
                (round-Solves i j s hi hj' h) (round-IsEchelon i j s hi le hj' ne h g)
                (sym step ∙ run)
        ]
