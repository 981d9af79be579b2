-- ===== src/Common/Bytes.antt =====
-- Byte slices: little-endian numbers, comparison, and results with errors.
use gopar.Common.{
  ℕ, zero, suc, ◌+◌, ◌*◌, ◌/◌, ◌%◌, ◌^◌, ◌<◌, ◌≡◌, refl, ap, ◌∙◌, ◌==◌, ◌&&◌, Bool, true, false,
  List, [], ◌∷◌, ◌++◌, length, arith, take, drop, sym, ◌⊎◌, inl, inr, All, length-append,
  take-append, drop-append,
}
use native.Mathlib.Nat.{pow-suc}
use mathlib.Core.List.{append_assoc}

-- A byte slice is a list of numbers; those that a round trip keeps are below 256.
abbrev pub Bytes : Type 0
Bytes = List ℕ

abbrev pub AreBytes : Bytes → Type 0
AreBytes = All (λ b. b < 256)

-- The low `k` bytes of `n`, the lowest first, and the number that bytes stand for.
abbrev pub put_le : ℕ → ℕ → Bytes
put_le zero n = []
put_le (suc k) n = (n % 256) ∷ put_le k (n / 256)

abbrev pub get_le : Bytes → ℕ
get_le [] = 0
get_le (b ∷ bs) = b + get_le bs * 256

pub length-put_le : (k n : ℕ) → length (put_le k n) ≡ k
length-put_le zero n = refl
length-put_le (suc k) n = ap suc (length-put_le k (n / 256))

pub get_le-put_le : (k n : ℕ) → n < 256 ^ k → get_le (put_le k n) ≡ n
get_le-put_le zero n h = omega arith
get_le-put_le (suc k) n h = omega (arith, get_le-put_le k (n / 256) (omega (arith, pow-suc 256 k)))

abbrev pub same_bytes : Bytes → Bytes → Bool
same_bytes [] [] = true
same_bytes [] (y ∷ ys) = false
same_bytes (x ∷ xs) [] = false
same_bytes (x ∷ xs) (y ∷ ys) = x == y && same_bytes xs ys

pub same_bytes_refl : (xs : Bytes) → same_bytes xs xs ≡ true
same_bytes_refl [] = refl
same_bytes_refl (x ∷ xs) = ground (arith, same_bytes_refl xs)

pub same_bytes→eq : (xs ys : Bytes) → same_bytes xs ys ≡ true → xs ≡ ys
same_bytes→eq [] [] h = refl
same_bytes→eq [] (y ∷ ys) h = cc
same_bytes→eq (x ∷ xs) [] h = cc
same_bytes→eq (x ∷ xs) (y ∷ ys) h = ground (arith, same_bytes→eq xs ys)

-- A result, or an error of the type `E`.
pub data Result (E A : Type 0) : Type 0 where
  ok : A → Result E A
  err : E → Result E A

infixl 5 ◌>>=◌ ◌>>◌
abbrev pub ◌>>=◌ : {E A B : Type 0} → Result E A → (A → Result E B) → Result E B
ok a >>= f = f a
err e >>= f = err e

abbrev pub ◌>>◌ : {E B : Type 0} → Result E (Unit {0}) → Result E B → Result E B
m >> k = m >>= λ _. k

-- Goes on where the test passes.
abbrev pub guard : {E : Type 0} → Bool → E → Result E (Unit {0})
guard true e = ok tt
guard false e = err e

-- A step that is done for its error alone: where the whole succeeds, it did, and the rest does.
pub then-ok :
    {E B : Type 0} (m : Result E (Unit {0})) (k : Result E B) (b : B)
    → (m >>= (λ _. k)) ≡ ok b
    → (m ≡ ok tt) × (k ≡ ok b)
then-ok (ok tt) k b h = (refl, h)
then-ok (err e) k b h = absurd (ground arith)

-- Where the whole succeeds, its first test passed.
pub guard-then :
    {E B : Type 0} (t : Bool) (e : E) (k : Result E B) (b : B)
    → (guard t e >>= (λ _. k)) ≡ ok b
    → (t ≡ true) × (k ≡ ok b)
guard-then true e k b h = (refl, h)
guard-then false e k b h = absurd (ground arith)

pub guard-ok : {E : Type 0} (t : Bool) (e : E) → guard t e ≡ ok tt → t ≡ true
guard-ok true e h = refl
guard-ok false e h = absurd (ground arith)

pub ok-injective : {E A : Type 0} (a b : A) → ◌≡◌ {A = Result E A} (ok a) (ok b) → a ≡ b
ok-injective a b h = ground arith

abbrev pub join : List Bytes → Bytes
join [] = []
join (xs ∷ xss) = xs ++ join xss

-- `n` arrays of `size` bytes, and what they were read from.
abbrev pub chunks : ℕ → ℕ → Bytes → List Bytes
chunks size zero bs = []
chunks size (suc n) bs = take size bs ∷ chunks size n (drop size bs)

abbrev pub HaveSize : ℕ → List Bytes → Type 0
HaveSize size = All (λ xs. length xs ≡ size)

pub length-chunks : (size n : ℕ) (bs : Bytes) → length (chunks size n bs) ≡ n
length-chunks size zero bs = refl
length-chunks size (suc n) bs = ap suc (length-chunks size n (drop size bs))

pub length-join :
    (size : ℕ) (xss : List Bytes) → HaveSize size xss → length (join xss) ≡ length xss * size
length-join size [] h = omega arith
length-join size (xs ∷ xss) h =
    length-append xs (join xss) ∙ omega (arith, length-join size xss h.1, h.0)

pub chunks-join :
    (size : ℕ) (xss : List Bytes) → HaveSize size xss → chunks size (length xss) (join xss) ≡ xss
chunks-join size [] h = refl
chunks-join size (xs ∷ xss) h = simp (
  take-append size xs (join xss) h.0,
  drop-append size xs (join xss) h.0,
  chunks-join size xss h.1,
)

pub join-append : (xss yss : List Bytes) → join (xss ++ yss) ≡ join xss ++ join yss
join-append [] yss = refl
join-append (xs ∷ xss) yss =
    ap (λ t. xs ++ t) (join-append xss yss) ∙ sym (append_assoc xs (join xss) (join yss))

-- Where the whole succeeds, its first step did, and the rest does with its value.
pub bind-ok :
    {E A B : Type 0} (m : Result E A) (f : A → Result E B) (b : B)
    → (m >>= f) ≡ ok b
    → (a : A) × ((m ≡ ok a) × (f a ≡ ok b))
bind-ok (ok a) f b h = (a, (refl, h))
bind-ok (err e) f b h = absurd (ground arith)

-- A step that succeeds, and the rest with its value.
pub bind_step :
    {E A B : Type 0} (m : Result E A) (f : A → Result E B) (a : A) (b : B)
    → m ≡ ok a
    → f a ≡ ok b
    → (m >>= f) ≡ ok b
bind_step (ok a') f a b h k = ap f (ok-injective a' a h) ∙ k
bind_step (err e) f a b h k = absurd (ground arith)

-- To split on a result and keep the equation.
pub Result-cases :
    {E A : Type 0} (r : Result E A) → ((e : E) × (r ≡ err e)) ⊎ ((a : A) × (r ≡ ok a))
Result-cases (ok a) = inr (a, refl)
Result-cases (err e) = inl (e, refl)
