-- ===== src/Common/Maps.antt =====
-- Finite maps as association lists; a key stands in one at most once where it is built by insert.
use mathlib.Core.Path.{◌≡◌}
use mathlib.Core.Logic.{inl, inr}
use mathlib.Core.Bool.{Bool, true, false}
use mathlib.Core.Option.{Option, none, some}
use mathlib.Core.List.{List, [], ◌∷◌}
use native.Mathlib.Omega.{arith}
use gopar.Common.Tests.{if◌then◌else◌, Bool-cases}

module _ {K V : Type 0} (same : K → K → Bool) where
  abbrev pub lookup : K → List (K × V) → Option V
  lookup k [] = none
  lookup k ((k', v) ∷ m) = if same k k' then some v else lookup k m

  -- The value of a key that is there is replaced.
  abbrev pub insert : K → V → List (K × V) → List (K × V)
  insert k v [] = (k, v) ∷ []
  insert k v ((k', v') ∷ m) = if same k k' then (k, v) ∷ m else (k', v') ∷ insert k v m

  module _ (same_refl : (k : K) → same k k ≡ true)
      (same_eq : (k k' : K) → same k k' ≡ true → k ≡ k') where
    pub lookup-insert_self : (k : K) (v : V) (m : List (K × V)) → lookup k (insert k v m) ≡ some v
    lookup-insert_self k v [] = ground (arith, same_refl k)
    lookup-insert_self k v ((k', v') ∷ m) = ground (arith, same_refl k, lookup-insert_self k v m)

    pub lookup-insert_ne :
        (k j : K) (v : V) (m : List (K × V))
        → same j k ≡ false
        → lookup j (insert k v m) ≡ lookup j m
    lookup-insert_ne k j v [] h = ground arith
    lookup-insert_ne k j v ((k', v') ∷ m) h = elim (Bool-cases (same k k')) [
      | inl t ↦ ground (arith, same_eq k k' t)
      | inr t ↦ ground (arith, lookup-insert_ne k j v m h)
    ]

module _ {K V : Type 0} (same : K → K → Bool) where
  -- Every value of the key goes.
  abbrev pub erase : K → List (K × V) → List (K × V)
  erase k [] = []
  erase k ((k', v) ∷ m) = if same k k' then erase k m else (k', v) ∷ erase k m

  pub lookup-erase_self : (k : K) (m : List (K × V)) → lookup same k (erase k m) ≡ none
  lookup-erase_self k [] = ground arith
  lookup-erase_self k ((k', v) ∷ m) = ground (arith, lookup-erase_self k m)

  module _ (same_refl : (k : K) → same k k ≡ true)
      (same_eq : (k k' : K) → same k k' ≡ true → k ≡ k') where
    pub lookup-erase_ne :
        (k j : K) (m : List (K × V))
        → same j k ≡ false
        → lookup same j (erase k m) ≡ lookup same j m
    lookup-erase_ne k j [] h = ground arith
    lookup-erase_ne k j ((k', v) ∷ m) h = elim (Bool-cases (same k k')) [
      | inl t ↦ ground (arith, same_eq k k' t, lookup-erase_ne k j m h)
      | inr t ↦ ground (arith, lookup-erase_ne k j m h)
    ]
