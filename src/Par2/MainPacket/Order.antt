-- ===== src/Par2/MainPacket/Order.antt =====
-- fileIDLess orders file IDs as the numbers that their bytes are, the lowest first.
use gopar.Common.{
  ℕ, suc, zero, ◌+◌, ◌*◌, ◌^◌, ◌≡◌, ◌<◌, ◌≤◌, ◌↔◌, refl, ap, ◌∙◌, ltb, if◌then◌else◌, Bool, true,
  false, List, [], ◌∷◌, length, get_or, take, All, arith,
}
use gopar.Common.Bytes.{AreBytes, Bytes, get_le}
use native.Mathlib.Nat.{pow-suc, mul_assoc, mul_comm, mul-le-mul_left, one-le-pow}
use native.Mathlib.Decide.{dec_lt}
use gopar.Par2.MainPacket.{file_id_less_below, file_id_less, slice_is_sorted}

get_le-take-suc :
    (i : ℕ) (bs : Bytes) → get_le (take (suc i) bs) ≡ get_le (take i bs) + 256 ^ i * get_or bs i 0
get_le-take-suc zero [] = refl
get_le-take-suc zero (b ∷ bs) = omega arith
get_le-take-suc (suc i) [] = omega arith
get_le-take-suc (suc i) (b ∷ bs) =
    let scaled : 256 ^ suc i * get_or bs i 0 ≡ 256 * (256 ^ i * get_or bs i 0) =
      ap (λ (n : ℕ). n * get_or bs i 0) (pow-suc 256 i)
      ∙ ap (λ (n : ℕ). n * get_or bs i 0) (mul_comm (256 ^ i) 256)
      ∙ mul_assoc 256 (256 ^ i) (get_or bs i 0) in
    omega (arith, get_le-take-suc i bs, scaled)

pub get_le-take_bound : (i : ℕ) (bs : Bytes) → AreBytes bs → get_le (take i bs) < 256 ^ i
get_le-take_bound zero bs h = omega arith
get_le-take_bound (suc i) [] h = one-le-pow (suc i) 256 (omega arith)
get_le-take_bound (suc i) (b ∷ bs) h = omega (arith, h, get_le-take_bound i bs h.1, pow-suc 256 i)

higher : (p x y a b : ℕ) → a < p → x < y → a + p * x < b + p * y
higher p x y a b small lt = omega (arith, mul-le-mul_left p lt)

compare_step :
    (p x y a b : ℕ) (below : Bool)
    → a < p
    → b < p
    → (below ≡ true) ↔ (a < b)
    → ((if ltb x y then true else if ltb y x then false else below) ≡ true)
      ↔ (a + p * x < b + p * y)
compare_step p x y a b below ha hb h = elim (dec_lt x y) [
  | yes lt ↦ ground (arith, higher p x y a b ha lt)
  | no ge ↦ elim (dec_lt y x) [
    | yes gt ↦ ground (arith, higher p y x b a hb gt)
    | no le ↦ let same : p * x ≡ p * y = ap (λ (n : ℕ). p * n) (omega arith) in ground (arith, same)
  ]
]

-- The bytes below `i` are compared as the numbers that they are.
less_below_lem :
    (i : ℕ) (id1 id2 : Bytes)
    → AreBytes id1
    → AreBytes id2
    → (file_id_less_below i id1 id2 ≡ true) ↔ (get_le (take i id1) < get_le (take i id2))
unfolding file_id_less_below
less_below_lem zero id1 id2 h1 h2 = ground arith
less_below_lem (suc i) id1 id2 h1 h2 =
    rw (get_le-take-suc i id1, get_le-take-suc i id2)
      (compare_step (256 ^ i) (get_or id1 i 0) (get_or id2 i 0) (get_le (take i id1))
        (get_le (take i id2)) (file_id_less_below i id1 id2) (get_le-take_bound i id1 h1)
        (get_le-take_bound i id2 h2) (less_below_lem i id1 id2 h1 h2))

take-all : (bs : Bytes) → take (length bs) bs ≡ bs
take-all [] = refl
take-all (b ∷ bs) = ap (λ t. b ∷ t) (take-all bs)

-- fileIDLess holds of two IDs of one length exactly where the number that the first one's bytes
-- are, the lowest first, is below that of the second.
pub file_id_less_lem :
    (id1 id2 : Bytes)
    → AreBytes id1
    → AreBytes id2
    → length id1 ≡ length id2
    → (file_id_less id1 id2 ≡ true) ↔ (get_le id1 < get_le id2)
unfolding file_id_less
file_id_less_lem id1 id2 h1 h2 e =
    let all1 : get_le (take (length id1) id1) ≡ get_le id1 = ap get_le (take-all id1) in
    let all2 : get_le (take (length id1) id2) ≡ get_le id2 =
      ap (λ (n : ℕ). get_le (take n id2)) e ∙ ap get_le (take-all id2) in
    ground (arith, less_below_lem (length id1) id1 id2 h1 h2, all1, all2)

-- IDs of 16 bytes, which as numbers go up, or stay.
abbrev pub IsId : Bytes → Type 0
IsId id = (length id ≡ 16) × AreBytes id

pub data Ascending : List Bytes → Type 0 where
  none_left : Ascending []
  one_left : (id : Bytes) → Ascending (id ∷ [])
  ascend :
      (id next : Bytes) (ids : List Bytes)
      → get_le id ≤ get_le next
      → Ascending (next ∷ ids)
      → Ascending (id ∷ (next ∷ ids))

-- sort.SliceIsSorted passes exactly the IDs that go up.
pub slice_is_sorted→Ascending :
    (ids : List Bytes) → All IsId ids → slice_is_sorted ids ≡ true → Ascending ids
unfolding slice_is_sorted
slice_is_sorted→Ascending [] h e = none_left
slice_is_sorted→Ascending (id ∷ []) h e = one_left id
slice_is_sorted→Ascending (id ∷ (next ∷ ids)) h e =
    let less = file_id_less_lem next id h.1.0.1 h.0.1 (omega (arith, h)) in
    ascend id next ids (ground (arith, less))
      (slice_is_sorted→Ascending (next ∷ ids) h.1 (ground arith))

pub Ascending→slice_is_sorted :
    (ids : List Bytes) → All IsId ids → Ascending ids → slice_is_sorted ids ≡ true
unfolding slice_is_sorted
Ascending→slice_is_sorted [] h none_left = refl
Ascending→slice_is_sorted (id ∷ []) h (one_left _) = refl
Ascending→slice_is_sorted (id ∷ (next ∷ ids)) h (ascend _ _ _ le rest) =
    let less = file_id_less_lem next id h.1.0.1 h.0.1 (omega (arith, h)) in
    ground (arith, less, Ascending→slice_is_sorted (next ∷ ids) h.1 rest)
