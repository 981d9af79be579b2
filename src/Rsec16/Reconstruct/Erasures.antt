-- ===== src/Rsec16/Reconstruct/Erasures.antt =====
-- The rows and shards that ReconstructData collects, of shards some of which are missing.
use gopar.Common.{
  ℕ, zero, suc, ◌+◌, ◌<◌, ◌≤◌, ◌≡◌, refl, sym, ap, ◌∙◌, Option, none, some, List, [], ◌∷◌, ◌++◌,
  length, get_or, set, map, arith, length-append,
}
use mathlib.Core.Path.{ap₂}
use mathlib.Core.List.{append_assoc}
use gopar.Gf2p16.Algebra.{Field, sum, sum_front, sum_ext, add-zero}
use gopar.Rsec16.Reconstruct.{
  available_rows, missing_rows, available_shards, used_parity_rows, used_parity_shards, put_missing,
}

module _ {S : Type 0} (g : ℕ → S) where
  -- The shards from the row `i` on are those of `g`, or missing.
  abbrev pub Erased : ℕ → List (Option S) → Type 0
  Erased i [] = Unit {0}
  Erased i (none ∷ rows) = Erased (i + 1) rows
  Erased i (some shard ∷ rows) = (shard ≡ g i) × Erased (i + 1) rows

  pub length-available_shards :
      (i : ℕ) (rows : List (Option S))
      → length (available_shards rows) ≡ length (available_rows i rows)
  unfolding available_shards available_rows
  length-available_shards i [] = refl
  length-available_shards i (none ∷ rows) = length-available_shards (i + 1) rows
  length-available_shards i (some shard ∷ rows) = ap suc (length-available_shards (i + 1) rows)

  pub get_or-available_shards :
      (i j : ℕ) (rows : List (Option S)) (d : S)
      → Erased i rows
      → j < length (available_rows i rows)
      → get_or (available_shards rows) j d ≡ g (get_or (available_rows i rows) j 0)
  unfolding available_shards available_rows
  get_or-available_shards i j [] d h lt = absurd (omega arith)
  get_or-available_shards i j (none ∷ rows) d h lt = get_or-available_shards (i + 1) j rows d h lt
  get_or-available_shards i zero (some shard ∷ rows) d h lt = h.0
  get_or-available_shards i (suc j) (some shard ∷ rows) d h lt =
      get_or-available_shards (i + 1) j rows d h.1 (omega arith)

  pub length-used_parity_shards :
      (need i : ℕ) (parity : List (Option S))
      → (length (used_parity_shards need parity) ≡ length (used_parity_rows need i parity))
        × (length (used_parity_rows need i parity) ≤ need)
  unfolding used_parity_shards used_parity_rows
  length-used_parity_shards zero i parity = (refl, omega arith)
  length-used_parity_shards (suc need) i [] = (refl, omega arith)
  length-used_parity_shards (suc need) i (none ∷ parity) =
      length-used_parity_shards (suc need) (i + 1) parity
  length-used_parity_shards (suc need) i (some shard ∷ parity) =
      let (same, few) = length-used_parity_shards need (i + 1) parity in (ap suc same, omega arith)

  pub get_or-used_parity_shards :
      (need i j : ℕ) (parity : List (Option S)) (d : S)
      → Erased i parity
      → j < length (used_parity_rows need i parity)
      → (get_or (used_parity_shards need parity) j d
          ≡ g (get_or (used_parity_rows need i parity) j 0))
        × (get_or (used_parity_rows need i parity) j 0 < i + length parity)
  unfolding used_parity_shards used_parity_rows
  get_or-used_parity_shards zero i j parity d h lt = absurd (omega arith)
  get_or-used_parity_shards (suc need) i j [] d h lt = absurd (omega arith)
  get_or-used_parity_shards (suc need) i j (none ∷ parity) d h lt =
      let (same, small) = get_or-used_parity_shards (suc need) (i + 1) j parity d h lt in
      (same, omega arith)
  get_or-used_parity_shards (suc need) i zero (some shard ∷ parity) d h lt = (h.0, omega arith)
  get_or-used_parity_shards (suc need) i (suc j) (some shard ∷ parity) d h lt =
      let (same, small) = get_or-used_parity_shards need (i + 1) j parity d h.1 (omega arith) in
      (same, omega arith)

  pub length-rows :
      (i : ℕ) (rows : List (Option S))
      → length (available_rows i rows) + length (missing_rows i rows) ≡ length rows
  unfolding available_rows missing_rows
  length-rows i [] = refl
  length-rows i (none ∷ rows) = omega (arith, length-rows (i + 1) rows)
  length-rows i (some shard ∷ rows) = omega (arith, length-rows (i + 1) rows)

  -- The shards of `g` from the row `i` on, all there.
  abbrev pub whole : ℕ → ℕ → List (Option S)
  whole i zero = []
  whole i (suc n) = some (g i) ∷ whole (i + 1) n

  set-append :
      (i : ℕ) (front : List (Option S)) (old new : Option S) (back : List (Option S))
      → length front ≡ i
      → set (front ++ (old ∷ back)) i new ≡ (front ++ (new ∷ [])) ++ back
  set-append zero [] old new back h = refl
  set-append zero (x ∷ front) old new back h = absurd (omega arith)
  set-append (suc i) [] old new back h = absurd (omega arith)
  set-append (suc i) (x ∷ front) old new back h =
      ap (λ t. x ∷ t) (set-append i front old new back (omega arith))

  put_missing-append :
      (i : ℕ) (front rows : List (Option S))
      → length front ≡ i
      → Erased i rows
      → put_missing (missing_rows i rows) (map g (missing_rows i rows)) (front ++ rows)
        ≡ front ++ whole i (length rows)
  unfolding put_missing missing_rows
  put_missing-append i front [] h e = refl
  put_missing-append i front (none ∷ rows) h e =
      ap (put_missing (missing_rows (i + 1) rows) (map g (missing_rows (i + 1) rows)))
        (set-append i front none (some (g i)) rows h)
      ∙ put_missing-append (i + 1) (front ++ (some (g i) ∷ [])) rows
          (length-append front (some (g i) ∷ []) ∙ omega arith) e
      ∙ append_assoc front (some (g i) ∷ []) (whole (i + 1) (length rows))
  put_missing-append i front (some shard ∷ rows) h e =
      ap
        (λ s.
          put_missing (missing_rows (i + 1) rows) (map g (missing_rows (i + 1) rows))
            (front ++ (some s ∷ rows)))
        e.0
      ∙ ap (put_missing (missing_rows (i + 1) rows) (map g (missing_rows (i + 1) rows)))
          (sym (append_assoc front (some (g i) ∷ []) rows))
      ∙ put_missing-append (i + 1) (front ++ (some (g i) ∷ [])) rows
          (length-append front (some (g i) ∷ []) ∙ omega arith) e.1
      ∙ append_assoc front (some (g i) ∷ []) (whole (i + 1) (length rows))

  -- The missing shards put in their rows make the rows whole.
  pub put_missing-whole :
      (rows : List (Option S))
      → Erased 0 rows
      → put_missing (missing_rows 0 rows) (map g (missing_rows 0 rows)) rows ≡ whole 0 (length rows)
  put_missing-whole rows e = put_missing-append 0 [] rows refl e

module _ (K : Field) where
  open K use {F, zero as o, add, add_assoc, add_comm}

  -- A sum over a range in two parts.
  pub sum_range :
      (a b : ℕ) (f : ℕ → F) → sum K (a + b) f ≡ add (sum K a f) (sum K b (λ t. f (a + t)))
  unfolding sum
  sum_range a zero f = ap (λ (n : ℕ). sum K n f) (omega arith) ∙ sym (add-zero K (sum K a f))
  sum_range a (suc b) f =
      ap (λ (n : ℕ). sum K n f) (let e : a + suc b ≡ suc (a + b) = omega arith in e)
      ∙ ap (λ t. add t (f (a + b))) (sum_range a b f)
      ∙ add_assoc (sum K a f) (sum K b (λ t. f (a + t))) (f (a + b))

  -- The sum over the indices that a list holds.
  abbrev pub sum_over : (ℕ → F) → List ℕ → F
  sum_over f rows = sum K (length rows) (λ t. f (get_or rows t 0))

  sum_over-cons :
      (f : ℕ → F) (i : ℕ) (rows : List ℕ) → sum_over f (i ∷ rows) ≡ add (f i) (sum_over f rows)
  sum_over-cons f i rows = sum_front K (length rows) (λ t. f (get_or (i ∷ rows) t 0))

  sum_shift :
      (f : ℕ → F) (i n : ℕ)
      → sum K (suc n) (λ t. f (i + t)) ≡ add (f i) (sum K n (λ t. f (i + 1 + t)))
  sum_shift f i n =
      sum_front K n (λ t. f (i + t))
      ∙ ap₂ add (ap f (omega arith)) (sum_ext K n _ _ (λ t lt. ap f (omega arith)))

  -- A sum over all rows is that over the rows that are there and that over the missing ones.
  pub sum_rows :
      {S : Type 0} (f : ℕ → F) (i : ℕ) (rows : List (Option S))
      → sum K (length rows) (λ t. f (i + t))
        ≡ add (sum_over f (available_rows i rows)) (sum_over f (missing_rows i rows))
  unfolding available_rows missing_rows
  sum_rows f i [] = unfold sum in sym (add-zero K o)
  sum_rows f i (none ∷ rows) =
      let there = sum_over f (available_rows (i + 1) rows) in
      let gone = sum_over f (missing_rows (i + 1) rows) in
      sum_shift f i (length rows)
      ∙ ap (add (f i)) (sum_rows f (i + 1) rows)
      ∙ sym (add_assoc (f i) there gone)
      ∙ ap (λ t. add t gone) (add_comm (f i) there)
      ∙ add_assoc there (f i) gone
      ∙ ap (add there) (sym (sum_over-cons f i (missing_rows (i + 1) rows)))
  sum_rows f i (some shard ∷ rows) =
      let there = sum_over f (available_rows (i + 1) rows) in
      let gone = sum_over f (missing_rows (i + 1) rows) in
      sum_shift f i (length rows)
      ∙ ap (add (f i)) (sum_rows f (i + 1) rows)
      ∙ sym (add_assoc (f i) there gone)
      ∙ ap (λ t. add t gone) (sym (sum_over-cons f i (available_rows (i + 1) rows)))
