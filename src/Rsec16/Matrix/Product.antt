-- ===== src/Rsec16/Matrix/Product.antt =====
-- What applyMatrixSlice writes: in the rows and at the offsets of its ranges the product of the
-- matrix with the column of the shards there, and nothing elsewhere.
use gopar.Common.{
  ℕ, ◌+◌, ◌-◌, ◌/◌, ◌<◌, ◌≤◌, ◌≡◌, sym, ap, ◌∙◌, List, [], ◌∷◌, ◌++◌, length, get_or, take, drop,
  All, arith, length-take, length-drop, length-append, get_or-take, get_or-drop, get_or-append_left,
  get_or-append_right,
}
use gopar.Gf2p16.Algebra.{Field, sum, sum_front, sum_ext, add-zero}
use mathlib.Core.Path.{ap₂}
use gopar.Gf2p16.Matrix.{Matrix, elem, mul_slice, mul_and_add_slice}
use gopar.Gf2p16.Matrix.Operations.{
  length-mul_slice, get_or-mul_slice, length-mul_and_add_slice, get_or-mul_and_add_slice,
}
use gopar.Rsec16.Matrix.{slice_shard, write_shard, add_inputs, out_slice}

abbrev pub HaveLength {ℓ} : {A : Type ℓ} → ℕ → List (List A) → Type 0
HaveLength len = All (λ shard. length shard ≡ len)

module _ {ℓ} {A : Type ℓ} where
  length-slice_shard :
      (start end : ℕ) (shard : List A)
      → end / 2 ≤ length shard
      → length (slice_shard start end shard) ≡ end / 2 - start / 2
  length-slice_shard start end shard h = omega (
    arith,
    length-take (end / 2 - start / 2) (drop (start / 2) shard),
    length-drop (start / 2) shard,
  )

  get_or-slice_shard :
      (start end k : ℕ) (shard : List A) (d : A)
      → k < end / 2 - start / 2
      → get_or (slice_shard start end shard) k d ≡ get_or shard (start / 2 + k) d
  get_or-slice_shard start end k shard d h =
      get_or-take (end / 2 - start / 2) k (drop (start / 2) shard) d h
      ∙ get_or-drop (start / 2) k shard d

  module _ (start end : ℕ) (new shard : List A) (d : A) (ordered : start / 2 ≤ end / 2)
      (inside : end / 2 ≤ length shard) (size : length new ≡ end / 2 - start / 2) where
    front_size : length (take (start / 2) shard) ≡ start / 2
    front_size = omega (arith, length-take (start / 2) shard)

    pub length-write_shard : length (write_shard start end new shard) ≡ length shard
    length-write_shard =
        length-append (take (start / 2) shard) (new ++ drop (end / 2) shard)
        ∙ omega (
          arith,
          front_size,
          length-append new (drop (end / 2) shard),
          length-drop (end / 2) shard,
        )

    pub get_or-write_shard_inside :
        (k : ℕ)
        → k < end / 2 - start / 2
        → get_or (write_shard start end new shard) (start / 2 + k) d ≡ get_or new k d
    get_or-write_shard_inside k h =
        ap (λ (n : ℕ). get_or (write_shard start end new shard) (n + k) d) (sym front_size)
        ∙ get_or-append_right (take (start / 2) shard) (new ++ drop (end / 2) shard) k d
        ∙ get_or-append_left new (drop (end / 2) shard) k d (omega arith)

    pub get_or-write_shard_before :
        (k : ℕ) → k < start / 2 → get_or (write_shard start end new shard) k d ≡ get_or shard k d
    get_or-write_shard_before k h =
        get_or-append_left (take (start / 2) shard) (new ++ drop (end / 2) shard) k d
          (omega (arith, front_size))
        ∙ get_or-take (start / 2) k shard d h

    pub get_or-write_shard_after :
        (k : ℕ) → end / 2 ≤ k → get_or (write_shard start end new shard) k d ≡ get_or shard k d
    get_or-write_shard_after k h =
        let rest = k - end / 2 in
        ap (λ (n : ℕ). get_or (write_shard start end new shard) n d)
          (let e : k ≡ length (take (start / 2) shard) + (length new + rest) =
              omega (arith, front_size) in
            e)
        ∙ get_or-append_right (take (start / 2) shard) (new ++ drop (end / 2) shard)
            (length new + rest) d
        ∙ get_or-append_right new (drop (end / 2) shard) rest d
        ∙ get_or-drop (end / 2) rest shard d
        ∙ ap (λ (n : ℕ). get_or shard n d) (omega arith)

module _ (K : Field) where
  open K use {F, zero as o, add, mul, add_assoc}

  -- The product of the row `i` of the matrix with the column of the shards at the element `p`.
  unfoldable pub product : Matrix F → List (List F) → ℕ → ℕ → F
  product m input i p =
      sum K (length input) (λ j. mul (elem K m i j) (get_or (get_or input j []) p o))

  -- The same for the shards from the index `j` on.
  product_from : Matrix F → List (List F) → ℕ → ℕ → ℕ → F
  product_from m input i p j =
      sum K (length input) (λ t. mul (elem K m i (j + t)) (get_or (get_or input t []) p o))

  product_from-cons :
      (m : Matrix F) (shard : List F) (input : List (List F)) (i p j : ℕ)
      → product_from m (shard ∷ input) i p j
        ≡ add (mul (elem K m i j) (get_or shard p o)) (product_from m input i p (j + 1))
  unfolding product_from
  product_from-cons m shard input i p j =
      sum_front K (length input)
        (λ t. mul (elem K m i (j + t)) (get_or (get_or (shard ∷ input) t []) p o))
      ∙ ap₂ add (ap (λ (n : ℕ). mul (elem K m i n) (get_or shard p o)) (omega arith)) (
          sum_ext K (length input) _ _ (λ t lt.
            ap (λ (n : ℕ). mul (elem K m i n) (get_or (get_or input t []) p o)) (omega arith)))

  length-add_inputs :
      (m : Matrix F) (i start end len j : ℕ) (input : List (List F)) (out : List F)
      → end / 2 ≤ len
      → HaveLength len input
      → length out ≡ end / 2 - start / 2
      → length (add_inputs K m i start end j input out) ≡ end / 2 - start / 2
  unfolding add_inputs
  length-add_inputs m i start end len j [] out inside h e = e
  length-add_inputs m i start end len j (shard ∷ input) out inside h e =
      let size = length-slice_shard start end shard (omega (arith, h)) in
      length-add_inputs m i start end len (j + 1) input _ inside h.1 (
        length-mul_and_add_slice K (elem K m i j) (slice_shard start end shard) out (size ∙ sym e)
        ∙ e)

  pub length-out_slice :
      (m : Matrix F) (i start end len : ℕ) (shard : List F) (input : List (List F))
      → end / 2 ≤ len
      → HaveLength len (shard ∷ input)
      → length (out_slice K m i start end (shard ∷ input)) ≡ end / 2 - start / 2
  unfolding out_slice
  length-out_slice m i start end len shard input inside h =
      length-add_inputs m i start end len 1 input _ inside h.1 (
        length-mul_slice K (elem K m i 0) (slice_shard start end shard)
        ∙ length-slice_shard start end shard (omega (arith, h)))

  module _ (m : Matrix F) (i start end len k : ℕ) (inside : end / 2 ≤ len)
      (hk : k < end / 2 - start / 2) where
    add_inputs-product :
        (j : ℕ) (input : List (List F)) (out : List F)
        → HaveLength len input
        → length out ≡ end / 2 - start / 2
        → get_or (add_inputs K m i start end j input out) k o
          ≡ add (get_or out k o) (product_from m input i (start / 2 + k) j)
    unfolding add_inputs
    add_inputs-product j [] out h e = unfold product_from sum in sym (add-zero K (get_or out k o))
    add_inputs-product j (shard ∷ input) out h e =
        let c = elem K m i j in
        let part = slice_shard start end shard in
        let next = mul_and_add_slice K c part out in
        let size : length part ≡ end / 2 - start / 2 =
          length-slice_shard start end shard (omega (arith, h)) in
        let sized : length next ≡ end / 2 - start / 2 =
          length-mul_and_add_slice K c part out (size ∙ sym e) ∙ e in
        let value = add_inputs-product (j + 1) input next h.1 sized in
        let rest = product_from m input i (start / 2 + k) (j + 1) in
        let here : get_or next k o ≡ add (get_or out k o) (mul c (get_or shard (start / 2 + k) o)) =
          get_or-mul_and_add_slice K c part out k (omega (arith, size)) (omega (arith, e))
          ∙ ap (λ t. add (get_or out k o) (mul c t)) (get_or-slice_shard start end k shard o hk) in
        value
        ∙ ap (λ t. add t rest) here
        ∙ add_assoc (get_or out k o) (mul c (get_or shard (start / 2 + k) o)) rest
        ∙ ap (add (get_or out k o)) (sym (product_from-cons m shard input i (start / 2 + k) j))

    -- The slice that is written for a row.
    pub out_slice-product :
        (shard : List F) (input : List (List F))
        → HaveLength len (shard ∷ input)
        → get_or (out_slice K m i start end (shard ∷ input)) k o
          ≡ product m (shard ∷ input) i (start / 2 + k)
    unfolding out_slice
    out_slice-product shard input h =
        let c = elem K m i 0 in
        let part = slice_shard start end shard in
        let size : length part ≡ end / 2 - start / 2 =
          length-slice_shard start end shard (omega (arith, h)) in
        let value =
          add_inputs-product 1 input (mul_slice K c part) h.1 (length-mul_slice K c part ∙ size) in
        let first : get_or (mul_slice K c part) k o ≡ mul c (get_or shard (start / 2 + k) o) =
          get_or-mul_slice K c part k (omega (arith, size))
          ∙ ap (mul c) (get_or-slice_shard start end k shard o hk) in
        value
        ∙ ap (λ t. add t (product_from m input i (start / 2 + k) 1)) first
        ∙ sym (product_from-cons m shard input i (start / 2 + k) 0)
        ∙ unfold product_from product in
          sum_ext K (length (shard ∷ input)) _ _ (λ t lt.
            ap
              (λ (n : ℕ).
                mul (elem K m i n) (get_or (get_or (shard ∷ input) t []) (start / 2 + k) o))
              (omega arith))
