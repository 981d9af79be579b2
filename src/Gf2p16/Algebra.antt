-- ===== src/Gf2p16/Algebra.antt =====
-- What the matrices and the coder use of the elements of GF(2^16): a field of characteristic two,
-- in which Plus and Minus are one operation.
use native.Mathlib.Decide.{ℕ_discrete}
use gopar.Common.{ℕ, zero, suc, ◌≡◌, ◌≢◌, ◌↔◌, ◌<◌, Bool, true, refl, arith, sym, ap, ◌∙◌}

pub record Field : Type 1 where
  pub F : Type 0
  pub zero : F
  pub one : F
  pub add : F → F → F
  pub mul : F → F → F
  pub inv : F → F
  pub is_zero : F → Bool
  pub is_zero_iff : (a : F) → (is_zero a ≡ true) ↔ (a ≡ zero)
  pub zero-ne-one : zero ≢ one
  pub add_assoc : (a b c : F) → add (add a b) c ≡ add a (add b c)
  pub add_comm : (a b : F) → add a b ≡ add b a
  pub zero-add : (a : F) → add zero a ≡ a
  pub add_self : (a : F) → add a a ≡ zero
  pub mul_assoc : (a b c : F) → mul (mul a b) c ≡ mul a (mul b c)
  pub mul_comm : (a b : F) → mul a b ≡ mul b a
  pub one-mul : (a : F) → mul one a ≡ a
  pub mul-add : (a b c : F) → mul a (add b c) ≡ add (mul a b) (mul a c)
  pub mul-inv : (a : F) → a ≢ zero → mul a (inv a) ≡ one

module _ (K : Field) where
  open K use {
    F, zero as o, one, add, mul, inv, is_zero, is_zero_iff, add_assoc, add_comm, zero-add, add_self,
    mul_assoc, mul_comm, one-mul, mul-add, mul-inv,
  }

  pub add-zero : (a : F) → add a o ≡ a
  add-zero a = add_comm a o ∙ zero-add a

  pub add_middle : (a b c d : F) → add (add a b) (add c d) ≡ add (add a c) (add b d)
  add_middle a b c d =
      add_assoc a b (add c d)
      ∙ ap (add a) (sym (add_assoc b c d) ∙ ap (λ t. add t d) (add_comm b c) ∙ add_assoc c b d)
      ∙ sym (add_assoc a c (add b d))

  pub add_cancel : (a b : F) → add (add a b) b ≡ a
  add_cancel a b = add_assoc a b b ∙ ap (add a) (add_self b) ∙ add-zero a

  pub mul-zero : (a : F) → mul a o ≡ o
  mul-zero a = ap (mul a) (sym (add_self o)) ∙ mul-add a o o ∙ add_self (mul a o)

  pub zero-mul : (a : F) → mul o a ≡ o
  zero-mul a = mul_comm o a ∙ mul-zero a

  pub add-mul : (a b c : F) → mul (add a b) c ≡ add (mul a c) (mul b c)
  add-mul a b c =
      mul_comm (add a b) c
      ∙ mul-add c a b
      ∙ ap (λ t. add t (mul c b)) (mul_comm c a)
      ∙ ap (add (mul a c)) (mul_comm c b)

  -- The sum of `f i` for `i` below `n`.
  unfoldable pub sum : ℕ → (ℕ → F) → F
  sum zero f = o
  sum (suc n) f = add (sum n f) (f n)

  -- The first term of a sum apart.
  pub sum_front : (n : ℕ) (f : ℕ → F) → sum (suc n) f ≡ add (f 0) (sum n (λ i. f (suc i)))
  unfolding sum
  sum_front zero f = add_comm o (f 0)
  sum_front (suc n) f =
      ap (λ t. add t (f (suc n))) (sum_front n f)
      ∙ add_assoc (f 0) (sum n (λ i. f (suc i))) (f (suc n))

  pub sum-add : (n : ℕ) (f g : ℕ → F) → sum n (λ i. add (f i) (g i)) ≡ add (sum n f) (sum n g)
  unfolding sum
  sum-add zero f g = sym (zero-add o)
  sum-add (suc n) f g =
      ap (λ t. add t (add (f n) (g n))) (sum-add n f g) ∙ add_middle (sum n f) (sum n g) (f n) (g n)

  pub sum-mul : (n : ℕ) (c : F) (f : ℕ → F) → sum n (λ i. mul c (f i)) ≡ mul c (sum n f)
  unfolding sum
  sum-mul zero c f = sym (mul-zero c)
  sum-mul (suc n) c f =
      ap (λ t. add t (mul c (f n))) (sum-mul n c f) ∙ sym (mul-add c (sum n f) (f n))

  pub sum_ext : (n : ℕ) (f g : ℕ → F) → ((i : ℕ) → i < n → f i ≡ g i) → sum n f ≡ sum n g
  unfolding sum
  sum_ext zero f g h = refl
  sum_ext (suc n) f g h =
      ap (λ t. add t (f n)) (sum_ext n f g (λ i p. h i (omega arith)))
      ∙ ap (add (sum n g)) (h n (omega arith))

  pub sum-zero : (n : ℕ) → sum n (λ i. o) ≡ o
  unfolding sum
  sum-zero zero = refl
  sum-zero (suc n) = ap (λ t. add t o) (sum-zero n) ∙ zero-add o

  -- A sum with one term other than zero.
  pub sum_single :
      (n a : ℕ) (f : ℕ → F) → a < n → ((i : ℕ) → i < n → i ≢ a → f i ≡ o) → sum n f ≡ f a
  unfolding sum
  sum_single zero a f h rest = absurd (omega arith)
  sum_single (suc n) a f h rest = elim (ℕ_discrete a n) [
    | yes e ↦
        ap (λ t. add t (f n))
          (sum_ext n f (λ i. o) (λ i p. rest i (omega arith) (omega arith)) ∙ sum-zero n)
        ∙ zero-add (f n)
        ∙ ap f (sym e)
    | no ne ↦
        ap (add (sum n f)) (rest n (omega arith) (λ p. ne (sym p)))
        ∙ add-zero (sum n f)
        ∙ sum_single n a f (omega arith) (λ i p. rest i (omega arith))
  ]
