-- ===== src/Par2/File/Write/Lookups.antt =====
-- Maps that are built by insert from the values of another map, and the exponents of the recovery
-- packets in the order of sort.Ints.
use gopar.Common.{
  ℕ, ◌≡◌, ◌⊎◌, ◌∙◌, sym, refl, Bool, true, ◌==◌, leb, if◌then◌else◌, List, [], ◌∷◌, some, lookup,
  insert, lookup-insert_self, lookup-insert_ne, Bool-cases, Option-cases, inl, inr, Mem, arith,
}
use mathlib.Core.Path.{subst}
use gopar.Common.Bytes.{Bytes}
use gopar.Par2.File.Write.{insert_sorted, sort_ints, exponents}

module _ {K V : Type 0} (same : K → K → Bool) where
  -- What `m` holds, `f` does.
  abbrev pub Within : List (K × V) → List (K × V) → Type 0
  Within m f = (k : K) (v : V) → lookup same k m ≡ some v → lookup same k f ≡ some v

module _ {K V : Type 0} (same : K → K → Bool) (same_refl : (k : K) → same k k ≡ true)
    (same_eq : (k k' : K) → same k k' ≡ true → k ≡ k') where
  -- A value of `f` that is inserted in `m`: the key agrees with `f` then, and others as before.
  pub insert-agree :
      (k j : K) (v : V) (m f : List (K × V))
      → lookup same k f ≡ some v
      → lookup same j m ≡ lookup same j f
      → lookup same j (insert same k v m) ≡ lookup same j f
  insert-agree k j v m f e h = elim (Bool-cases (same j k)) [
    | inl t ↦
        let eq = same_eq j k t in
        subst (λ i. lookup same i (insert same k v m) ≡ lookup same i f) (sym eq)
          (lookup-insert_self same same_refl same_eq k v m ∙ sym e)
    | inr t ↦ lookup-insert_ne same same_refl same_eq k j v m t ∙ h
  ]

  pub insert-agree_self :
      (k : K) (v : V) (m f : List (K × V))
      → lookup same k f ≡ some v
      → lookup same k (insert same k v m) ≡ lookup same k f
  insert-agree_self k v m f e = lookup-insert_self same same_refl same_eq k v m ∙ sym e

  pub insert-Within :
      (k : K) (v : V) (m f : List (K × V))
      → lookup same k f ≡ some v
      → Within same m f
      → Within same (insert same k v m) f
  insert-Within k v m f e h j w found = elim (Bool-cases (same j k)) [
    | inl t ↦
        let eq = same_eq j k t in
        let here : lookup same j (insert same k v m) ≡ lookup same j f =
          subst (λ i. lookup same i (insert same k v m) ≡ lookup same i f) (sym eq)
            (lookup-insert_self same same_refl same_eq k v m ∙ sym e) in
        sym here ∙ found
    | inr t ↦ h j w (sym (lookup-insert_ne same same_refl same_eq k j v m t) ∙ found)
  ]

  -- A map within another one that agrees with it at each of its keys has all its lookups.
  pub Within-lookup :
      (m f : List (K × V)) (k : K)
      → Within same m f
      → ((v : V) → lookup same k f ≡ some v → lookup same k m ≡ lookup same k f)
      → lookup same k m ≡ lookup same k f
  Within-lookup m f k h agree = elim (Option-cases (lookup same k f)) [
    | inr (v, e) ↦ agree v e
    | inl e ↦ elim (Option-cases (lookup same k m)) [
      | inl e' ↦ e' ∙ sym e
      | inr (v, e') ↦ absurd (cc (h k v e', e))
    ]
  ]

insert_sorted-Mem : (k n : ℕ) (ns : List ℕ) → (k ≡ n) ⊎ Mem k ns → Mem k (insert_sorted n ns)
unfolding insert_sorted
insert_sorted-Mem k n [] h = h
insert_sorted-Mem k n (m ∷ ms) h = elim (Bool-cases (leb n m)) [
  | inl t ↦ rw t h
  | inr t ↦ rw t (elim h [
    | inl e ↦ inr (insert_sorted-Mem k n ms (inl e))
    | inr (inl e) ↦ inl e
    | inr (inr later) ↦ inr (insert_sorted-Mem k n ms (inr later))
  ])
]

sort_ints-Mem : (k : ℕ) (ns : List ℕ) → Mem k ns → Mem k (sort_ints ns)
unfolding sort_ints
sort_ints-Mem k [] h = h
sort_ints-Mem k (n ∷ ns) h =
    insert_sorted-Mem k n (sort_ints ns)
      (elim h [ inl e ↦ inl e | inr later ↦ inr (sort_ints-Mem k ns later) ])

Mem-insert_sorted : (k n : ℕ) (ns : List ℕ) → Mem k (insert_sorted n ns) → (k ≡ n) ⊎ Mem k ns
unfolding insert_sorted
Mem-insert_sorted k n [] h = h
Mem-insert_sorted k n (m ∷ ms) h = elim (Bool-cases (leb n m)) [
  | inl t ↦ (subst (λ (b : Bool). Mem k (if b then n ∷ (m ∷ ms) else m ∷ insert_sorted n ms)) t h)
  | inr t ↦
      let h' : Mem k (m ∷ insert_sorted n ms) =
        subst (λ (b : Bool). Mem k (if b then n ∷ (m ∷ ms) else m ∷ insert_sorted n ms)) t h in
      elim h' [
        | inl e ↦ inr (inl e)
        | inr later ↦ elim (Mem-insert_sorted k n ms later) [
          | inl e ↦ inl e
          | inr there ↦ inr (inr there)
        ]
      ]
]

Mem-sort_ints : (k : ℕ) (ns : List ℕ) → Mem k (sort_ints ns) → Mem k ns
unfolding sort_ints
Mem-sort_ints k [] h = h
Mem-sort_ints k (n ∷ ns) h = elim (Mem-insert_sorted k n (sort_ints ns) h) [
  | inl e ↦ inl e
  | inr later ↦ inr (Mem-sort_ints k ns later)
]

-- The sorted exponents are the keys of the map.
found-Mem :
    (k : ℕ) (v : Bytes) (f : List (ℕ × Bytes)) → lookup ◌==◌ k f ≡ some v → Mem k (exponents f)
unfolding exponents
found-Mem k v [] e = cc
found-Mem k v ((k', v') ∷ f) e = elim (Bool-cases (k == k')) [
  | inl t ↦ inl (ground arith)
  | inr t ↦ inr (found-Mem k v f (ground arith))
]

Mem-found :
    (k : ℕ) (f : List (ℕ × Bytes)) → Mem k (exponents f) → (v : Bytes) × (lookup ◌==◌ k f ≡ some v)
unfolding exponents
Mem-found k [] h = absurd h
Mem-found k ((k', v') ∷ f) h = elim (Bool-cases (k == k')) [
  | inl t ↦ (v', rw t refl)
  | inr t ↦ elim h [
    | inl e ↦ absurd (ground arith)
    | inr later ↦ let (v, e) = Mem-found k f later in (v, rw t e)
  ]
]

pub found-sorted :
    (k : ℕ) (v : Bytes) (f : List (ℕ × Bytes))
    → lookup ◌==◌ k f ≡ some v
    → Mem k (sort_ints (exponents f))
found-sorted k v f e = sort_ints-Mem k (exponents f) (found-Mem k v f e)

pub sorted-found :
    (k : ℕ) (f : List (ℕ × Bytes))
    → Mem k (sort_ints (exponents f))
    → (v : Bytes) × (lookup ◌==◌ k f ≡ some v)
sorted-found k f h = Mem-found k f (Mem-sort_ints k (exponents f) h)
