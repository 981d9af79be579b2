-- ===== src/Memfs/Search.antt =====
-- FindWithPrefixAndSuffix, and the count of the files.
use gopar.Common.{
  ℕ, zero, suc, ◌+◌, ◌-◌, ◌≡◌, ◌≤◌, ◌↔◌, ◌∙◌, sym, ap, refl, leb, true, List, [], ◌∷◌, ◌++◌, length,
  take, drop, Mem, Bool-cases, inl, inr, arith, length-append, take-append, drop-append,
  take-append-drop,
}
use mathlib.Core.Path.{subst}
use gopar.Common.Bytes.{Bytes, same_bytes, same_bytes_refl, same_bytes→eq, ok}
use gopar.Memfs.{
  MemFs, to_abs_path, paths, has_prefix, has_suffix, matches, matching, find_with_prefix_and_suffix,
}

abbrev pub IsMatch : Bytes → Bytes → Bytes → Type 0
IsMatch abs_prefix suffix filename =
    (middle : Bytes) × (filename ≡ abs_prefix ++ (middle ++ suffix))

-- The rest of a name behind its prefix ends in the suffix.
drop_middle :
    (n k : ℕ) (s : Bytes)
    → n + k ≤ length s
    → drop (length s - k) s ≡ drop (length s - n - k) (drop n s)
drop_middle zero k s h = ap (λ (i : ℕ). drop i s) (omega arith)
drop_middle (suc n) k [] h = absurd (omega arith)
drop_middle (suc n) k (c ∷ s) h =
    let shift : suc (length s) - k ≡ suc (length s - k) = omega arith in
    let shift' : suc (length s) - suc n - k ≡ length s - n - k = omega arith in
    rw (shift, shift') (drop_middle n k s (omega arith))

matches-IsMatch :
    (abs_prefix suffix filename : Bytes)
    → matches abs_prefix suffix filename ≡ true
    → IsMatch abs_prefix suffix filename
unfolding matches has_prefix has_suffix
matches-IsMatch abs_prefix suffix filename h =
    let n = length abs_prefix in
    let k = length suffix in
    let long : n + k ≤ length filename = ground arith in
    let front : same_bytes (take n filename) abs_prefix ≡ true = ground arith in
    let back : same_bytes (drop (length filename - k) filename) suffix ≡ true = ground arith in
    let rest = drop n filename in
    let m = length filename - n - k in
    (
      take m rest,
      sym (take-append-drop n filename)
          ∙ ap (λ s. s ++ rest) (same_bytes→eq _ _ front)
          ∙ ap (λ s. abs_prefix ++ s)
              (sym (take-append-drop m rest)
                ∙ ap (λ s. take m rest ++ s)
                    (sym (drop_middle n k filename long) ∙ same_bytes→eq _ _ back)),
    )

IsMatch-matches :
    (abs_prefix suffix filename : Bytes)
    → IsMatch abs_prefix suffix filename
    → matches abs_prefix suffix filename ≡ true
unfolding matches has_prefix has_suffix
IsMatch-matches abs_prefix suffix filename (middle, e) =
    let n = length abs_prefix in
    let k = length suffix in
    let size : length filename ≡ n + (length middle + k) =
      ap length e
      ∙ length-append abs_prefix (middle ++ suffix)
      ∙ ap (λ (i : ℕ). n + i) (length-append middle suffix) in
    let front : take n filename ≡ abs_prefix =
      ap (take n) e ∙ take-append n abs_prefix (middle ++ suffix) refl in
    let back : drop (length filename - k) filename ≡ suffix =
      drop_middle n k filename (omega arith)
      ∙ ap (λ s. drop (length filename - n - k) s)
          (ap (drop n) e ∙ drop-append n abs_prefix (middle ++ suffix) refl)
      ∙ drop-append (length filename - n - k) middle suffix (omega arith) in
    let long : leb (n + k) (length filename) ≡ true = ground arith in
    let long1 : leb n (length filename) ≡ true = ground arith in
    let long2 : leb k (length filename) ≡ true = ground arith in
    rw (long, long1, front, same_bytes_refl abs_prefix, long2, back, same_bytes_refl suffix) refl

matching-Mem :
    (abs_prefix suffix filename : Bytes) (filenames : List Bytes)
    → Mem filename (matching abs_prefix suffix filenames)
      ↔ (Mem filename filenames × IsMatch abs_prefix suffix filename)
unfolding matching
matching-Mem abs_prefix suffix filename [] = (λ m. absurd m, λ m. absurd m.0)
matching-Mem abs_prefix suffix filename (f ∷ fs) =
    let (to, from) = matching-Mem abs_prefix suffix filename fs in
    elim (Bool-cases (matches abs_prefix suffix f)) [
      | inl t ↦ rw t (
        λ m. elim m [
          | inl e ↦ (
            inl e,
            subst (IsMatch abs_prefix suffix) (sym e) (matches-IsMatch abs_prefix suffix f t),
          )
          | inr later ↦ let (here, good) = to later in (inr here, good)
        ],
        λ m. elim m.0 [ inl e ↦ inl e | inr later ↦ inr (from (later, m.1)) ],
      )
      | inr t ↦ rw t (
        λ m. let (here, good) = to m in (inr here, good),
        λ m. elim m.0 [
          | inl e ↦
              let hit =
                IsMatch-matches abs_prefix suffix f (subst (IsMatch abs_prefix suffix) e m.1) in
              absurd cc
          | inr later ↦ from (later, m.1)
        ],
      )
    ]

-- FindWithPrefixAndSuffix returns the paths of the file system that begin with the absolute prefix
-- and end with the suffix, which do not overlap, and no others.
pub find_with_prefix_and_suffix-Mem :
    (fs : MemFs) (prefix suffix abs_prefix : Bytes)
    → to_abs_path fs.working_dir prefix ≡ ok abs_prefix
    → (found : List Bytes) × (find_with_prefix_and_suffix fs prefix suffix ≡ ok found)
      × ((filename : Bytes)
          → Mem filename found ↔ (Mem filename (paths fs) × IsMatch abs_prefix suffix filename))
unfolding find_with_prefix_and_suffix
find_with_prefix_and_suffix-Mem fs prefix suffix abs_prefix e = (
  matching abs_prefix suffix (paths fs),
  rw e refl,
  λ filename. matching-Mem abs_prefix suffix filename (paths fs),
)
