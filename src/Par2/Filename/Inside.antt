-- ===== src/Par2/Filename/Inside.antt =====
-- A filename that checkFilename accepts stays inside its directory.
use gopar.Common.{
  ℕ, suc, zero, ◌≡◌, sym, ◌∙◌, if◌then◌else◌, Bool, Bool-cases, true, false, inl, inr, List, [],
  ◌∷◌, ◌++◌, All, length, arith, Option, Option-cases, none, some,
}
use gopar.Common.Bytes.{Bytes, same_bytes, same_bytes→eq, ok}
use gopar.Par2.Filename.{
  dot, dot_dot, slash, is_abs, split_path, push_part, push_parts, join_reversed, clean, or_dot,
  starts_with_dot, check_filename,
}

-- Where the parts of a path lead: the number of directories below the one it starts in, none once
-- it leaves that one.
unfoldable pub enter : ℕ → Bytes → Option ℕ
enter zero part =
    if same_bytes part []
    then some 0
    else if same_bytes part (dot ∷ [])
    then some 0
    else if same_bytes part dot_dot
    then none
    else some 1
enter (suc n) part =
    if same_bytes part []
    then some (suc n)
    else if same_bytes part (dot ∷ [])
    then some (suc n)
    else if same_bytes part dot_dot
    then some n
    else some (suc (suc n))

unfoldable pub walk : ℕ → List Bytes → Option ℕ
walk n [] = some n
walk n (part ∷ parts) = elim (enter n part) [ none ↦ none | some m ↦ walk m parts ]

bottom : List Bytes → Bool
bottom [] = false
bottom (p ∷ []) = same_bytes p dot_dot
bottom (p ∷ (q ∷ s)) = bottom (q ∷ s)

abbrev Down : List Bytes → Type 0
Down s = All (λ p. same_bytes p dot_dot ≡ false) s

push_part-bottom :
    (s : List Bytes) (part : Bytes) → bottom s ≡ true → bottom (push_part false s part) ≡ true
unfolding push_part bottom
push_part-bottom [] part h = cc
push_part-bottom (t ∷ []) part h = ground arith
push_part-bottom (t ∷ (u ∷ s)) part h = ground arith

push_parts-bottom :
    (s parts : List Bytes) → bottom s ≡ true → bottom (push_parts false s parts) ≡ true
unfolding push_parts
push_parts-bottom s [] h = h
push_parts-bottom s (part ∷ parts) h =
    push_parts-bottom (push_part false s part) parts (push_part-bottom s part h)

push_part-inside :
    (s : List Bytes) (part : Bytes) (m : ℕ)
    → Down s
    → enter (length s) part ≡ some m
    → (length (push_part false s part) ≡ m) × Down (push_part false s part)
unfolding push_part enter
push_part-inside [] part m h e = ground arith
push_part-inside (t ∷ s) part m h e = ground arith

push_part-outside :
    (s : List Bytes) (part : Bytes)
    → enter (length s) part ≡ none
    → bottom (push_part false s part) ≡ true
unfolding push_part enter bottom
push_part-outside [] part e = ground arith
push_part-outside (t ∷ s) part e = ground arith

walk-into :
    (n m : ℕ) (part : Bytes) (parts : List Bytes)
    → enter n part ≡ some m
    → walk n (part ∷ parts) ≡ none
    → walk m parts ≡ none
unfolding walk
walk-into n m part parts into e =
    let through : walk n (part ∷ parts) ≡ walk m parts = rw (into, walk) in sym through ∙ e

push_parts-outside :
    (s parts : List Bytes)
    → Down s
    → walk (length s) parts ≡ none
    → bottom (push_parts false s parts) ≡ true
unfolding push_parts walk
push_parts-outside s [] h e = cc
push_parts-outside s (part ∷ parts) h e = elim (Option-cases (enter (length s) part)) [
  | inl out ↦ push_parts-bottom (push_part false s part) parts (push_part-outside s part out)
  | inr (m, into) ↦
      let (size, down) = push_part-inside s part m h into in
      push_parts-outside (push_part false s part) parts down
        (rw (size) (walk-into (length s) m part parts into e))
]

join_reversed-bottom :
    (s : List Bytes) (tail : Bytes)
    → bottom s ≡ true
    → starts_with_dot (or_dot (join_reversed s tail)) ≡ true
unfolding join_reversed bottom
join_reversed-bottom [] tail h = cc
join_reversed-bottom (p ∷ []) tail h = rw (same_bytes→eq p dot_dot h)
join_reversed-bottom (p ∷ (q ∷ s)) tail h = join_reversed-bottom (q ∷ s) (slash ∷ (p ++ tail)) h

-- A filename that is accepted is not absolute, and no beginning of it leads out of the directory
-- it starts in: at each `..` some directory was entered before.
pub check_filename-inside :
    (filename : Bytes)
    → check_filename filename ≡ ok tt
    → (is_abs filename ≡ false) × ((n : ℕ) × (walk 0 (split_path [] filename) ≡ some n))
unfolding check_filename clean
check_filename-inside filename h = elim (Bool-cases (is_abs filename)) [
  | inl abs ↦ ground arith
  | inr rel ↦ elim (Option-cases (walk 0 (split_path [] filename))) [
    | inl out ↦
        let starts =
          join_reversed-bottom (push_parts false [] (split_path [] filename)) []
            (push_parts-outside [] (split_path [] filename) tt out) in
        absurd (ground (arith, starts))
    | inr (n, e) ↦ (rel, (n, e))
  ]
]
