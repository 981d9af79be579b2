-- ===== src/Gf2p16/Matrix/Reduction.antt =====
-- The second loop of the reduction, and what the whole reduction gives: the left matrix becomes the
-- identity, so the right one takes each right side of the equations to its solution.
use gopar.Common.{ℕ, zero, suc, ◌+◌, ◌<◌, ◌≡◌, sym, ap, ◌∙◌, arith, Option-cases, inl, inr, some}
use mathlib.Core.Path.{subst}
use mathlib.Core.Option
use mathlib.Core.Option.{some-injective}
use native.Mathlib.Decide.{ℕ_discrete, dec_lt}
use gopar.Gf2p16.Algebra.{Field, sum, sum_single, zero-mul}
use gopar.Gf2p16.Matrix.{
  Matrix, elem, Pair, clear, clear_rows, echelon, reduce, row_reduce, row_reduce_for_inverse, done,
}
use gopar.Gf2p16.Matrix.Solutions.{HasShape, apply}
use gopar.Gf2p16.Matrix.Solves.{Solves, clear-Solves, clear_rows-Solves}
use gopar.Gf2p16.Matrix.Echelon.{IsEchelon, same_step, clear_step, elem-clear_self, elem-clear_ne}
use gopar.Gf2p16.Matrix.Forward.{echelon-IsEchelon}

module _ (K : Field) where
  open K use {F, zero as o, one, add, mul, one-mul}

  -- Row echelon form whose first `i` columns are zero above the diagonal too; in column `i` the first
  -- `j` rows are.
  record IsReduced (r i j : ℕ) (m : Matrix F) : Type 0 where
    good : IsEchelon K r r m
    above : (a c : ℕ) → c < i → a < c → elem K m a c ≡ o
    column : (a : ℕ) → a < j → elem K m a i ≡ o

  clear-IsReduced :
      (r i j : ℕ) (s : Pair K)
      → j < i
      → i < r
      → HasShape r r s.left
      → IsReduced r i j s.left
      → IsReduced r i (j + 1) (clear K i j s).left
  clear-IsReduced r i j s lt hi h g =
      let hj : j < r = omega arith in
      let t = elem K s.left j i in
      let old = λ (c : ℕ) (hc : c < i).
        elem-clear_self K r s h i j c hi hj (omega arith)
        ∙ same_step K t (elem K s.left j c) (elem K s.left i c)
            (g.good.below i c (omega arith) hc hi) in
      record {
        good = record {
          diagonal = λ c hc. elim (ℕ_discrete c j) [
            | yes e ↦
                ap (λ (b : ℕ). elem K (clear K i j s).left b b) e ∙ old j lt ∙ g.good.diagonal j hj
            | no ne ↦ elem-clear_ne K r s h i j c c hi hj hc ne ∙ g.good.diagonal c hc
          ];
          below = λ a c hc ca ha. elim (ℕ_discrete a j) [
            | yes e ↦
                ap (λ (b : ℕ). elem K (clear K i j s).left b c) e
                ∙ old c (omega arith)
                ∙ g.good.below j c hc (omega arith) hj
            | no ne ↦ elem-clear_ne K r s h i j a c hi hj hc ne ∙ g.good.below a c hc ca ha
          ];
        };
        above = λ a c hc ac. elim (ℕ_discrete a j) [
          | yes e ↦
              ap (λ (b : ℕ). elem K (clear K i j s).left b c) e
              ∙ old c hc
              ∙ g.above j c hc (omega arith)
          | no ne ↦ elem-clear_ne K r s h i j a c hi hj (omega arith) ne ∙ g.above a c hc ac
        ];
        column = λ a aj. elim (ℕ_discrete a j) [
          | yes e ↦
              ap (λ (b : ℕ). elem K (clear K i j s).left b i) e
              ∙ elem-clear_self K r s h i j i hi hj hi
              ∙ clear_step K t (elem K s.left i i) (g.good.diagonal i hi)
          | no ne ↦ elem-clear_ne K r s h i j a i hi hj hi ne ∙ g.column a (omega arith)
        ];
      }

  module _ (r d : ℕ) (x y : ℕ → F) where
    clear_rows-IsReduced :
        (count j i : ℕ) (s : Pair K)
        → j + count ≡ i
        → i < r
        → Solves K r d x y s
        → IsReduced r i j s.left
        → IsReduced r i i (clear_rows K count j i s).left
    unfolding clear_rows
    clear_rows-IsReduced zero j i s e hi h g =
        let last : j ≡ i = omega arith in subst (λ k. IsReduced r i k s.left) last g
    clear_rows-IsReduced (suc count) j i s e hi h g =
        clear_rows-IsReduced count (j + 1) i (clear K i j s) (omega arith) hi
          (clear-Solves K r d x y i j s hi (omega arith) h)
          (clear-IsReduced r i j s (omega arith) hi h.left_shape g)

    reduce-IsReduced :
        (count i : ℕ) (s : Pair K)
        → i + count ≡ r
        → Solves K r d x y s
        → IsReduced r i 0 s.left
        → Solves K r d x y (reduce K count i s) × IsReduced r r 0 (reduce K count i s).left
    unfolding reduce
    reduce-IsReduced zero i s e h g =
        let last : i ≡ r = omega arith in (h, subst (λ k. IsReduced r k 0 s.left) last g)
    reduce-IsReduced (suc count) i s e h g =
        let cleared = clear_rows-IsReduced i 0 i s (omega arith) (omega arith) h g in
        reduce-IsReduced count (i + 1) (clear_rows K i 0 i s) (omega arith)
          (clear_rows-Solves K r d x y i 0 i s (omega arith) (omega arith) h)
          (record {
            good = cleared.good;
            above = λ a c hc ac. elim (ℕ_discrete c i) [
              | yes e' ↦ rw e' (cleared.column a (omega arith))
              | no ne ↦ cleared.above a c (omega arith) ac
            ];
            column = λ a h0. absurd (omega arith);
          })

    -- A reduced matrix takes a column to itself.
    apply_reduced :
        (m : Matrix F) (a : ℕ) → HasShape r r m → IsReduced r r 0 m → a < r → apply K m x a ≡ x a
    unfolding apply
    apply_reduced m a h g ha =
        ap (λ (n : ℕ). sum K n (λ k. mul (elem K m a k) (x k))) h.columns_eq
        ∙ sum_single K r a (λ k. mul (elem K m a k) (x k)) ha
            (λ k hk ne.
              ap (λ t. mul t (x k))
                (elim (dec_lt k a) [
                  | yes lt ↦ g.good.below a k hk lt ha
                  | no ge ↦ g.above a k hk (omega arith)
                ])
              ∙ zero-mul K (x k))
        ∙ ap (λ t. mul t (x a)) (g.good.diagonal a ha)
        ∙ one-mul (x a)

    pub row_reduce-solution :
        (s s' : Pair K)
        → Solves K r d x y s
        → row_reduce K s ≡ some s'
        → HasShape r d s'.right × ((a : ℕ) → a < r → x a ≡ apply K s'.right y a)
    unfolding row_reduce
    row_reduce-solution s s' h run = elim (Option-cases (echelon K s.left.rows 0 s)) [
      | inl lost ↦
          absurd (cc (ap (Option.map (λ (t : Pair K). reduce K t.left.rows 0 t)) lost, run))
      | inr (t, found) ↦
          let (h', g) =
            echelon-IsEchelon K r d x y s.left.rows 0 s t (omega (arith, h.left_shape.rows_eq)) h
              (record {
                diagonal = λ c hc. absurd (omega arith);
                below = λ a c hc ca ha. absurd (omega arith);
              })
              found in
          let same : reduce K t.left.rows 0 t ≡ s' =
            some-injective (reduce K t.left.rows 0 t) s'
              (sym (ap (Option.map (λ (t : Pair K). reduce K t.left.rows 0 t)) found) ∙ run) in
          let (h2, g2) =
            reduce-IsReduced t.left.rows 0 t (omega (arith, h'.left_shape.rows_eq)) h' (record {
              good = g;
              above = λ a c hc ac. absurd (omega arith);
              column = λ a h0. absurd (omega arith);
            }) in
          subst (λ u. HasShape r d u.right × ((a : ℕ) → a < r → x a ≡ apply K u.right y a)) same
            (
              h2.right_shape,
              λ a ha.
                  sym (apply_reduced (reduce K t.left.rows 0 t).left a h2.left_shape g2 ha)
                  ∙ h2.equation a ha,
            )
    ]

  -- RowReduceForInverse: where it returns a matrix, that matrix takes `y` to `x` whenever `m` takes
  -- `x` to what `n` takes `y` to.
  pub row_reduce_for_inverse-solution :
      (m n n' : Matrix F) (r d : ℕ) (x y : ℕ → F)
      → HasShape r r m
      → HasShape r d n
      → row_reduce_for_inverse K m n ≡ done n'
      → ((a : ℕ) → a < r → apply K m x a ≡ apply K n y a)
      → HasShape r d n' × ((a : ℕ) → a < r → x a ≡ apply K n' y a)
  unfolding row_reduce_for_inverse
  row_reduce_for_inverse-solution m n n' r d x y hm hn run eqs =
      let start : Pair K = record { left = m; right = n } in
      elim (Option-cases (row_reduce K start)) [
        | inl lost ↦ absurd (ground arith)
        | inr (s, found) ↦
            let same : s.right ≡ n' = ground arith in
            subst (λ t. HasShape r d t × ((a : ℕ) → a < r → x a ≡ apply K t y a)) same
              (row_reduce-solution r d x y start s
                (record { left_shape = hm; right_shape = hn; equation = eqs }) found)
      ]
