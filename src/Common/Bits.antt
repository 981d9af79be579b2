-- ===== src/Common/Bits.antt =====
-- Laws of the native exclusive or at every width, from the equation for its lowest digit.
use Prim.Native.Nat.{
  ℕ, zero, suc, ◌+◌, ◌-◌, ◌*◌, ◌/◌, ◌%◌, ◌^◌, ◌≤◌, ◌<◌, bit_xor, bit_and, digits, differ, min,
}
use Prim.Native.Nat.{bit_xor-bitwise, bit_and-bitwise}
use Prim.Native.Nat.add
use mathlib.Core.Path.{◌≡◌, refl, sym, ap, ap₂, ◌∙◌}
use native.Mathlib.Nat.{
  pow-suc, mul_assoc, pow-zero, two-pow-succ, one-le-pow, mod-lt, mod-eq_of_lt,
  mul-add-mod_self_right, div-add-mod', div-one, pow-succ', div-div-eq-div-mul,
}
use native.Mathlib.Omega.{arith}

abbrev xor_digits : ℕ → ℕ → ℕ → ℕ
xor_digits n a b = digits (λ y. y) differ n a b

-- Any two amounts of fuel that reach the end agree.
enough_digits :
    (a b more less : ℕ) → a ≤ more → a ≤ less → xor_digits more a b ≡ xor_digits less a b
enough_digits zero b zero zero ha hl = refl
enough_digits zero b zero (suc less) ha hl = refl
enough_digits zero b (suc more) zero ha hl = refl
enough_digits zero b (suc more) (suc less) ha hl = refl
enough_digits (suc a) b zero less ha hl = absurd (omega arith)
enough_digits (suc a) b (suc more) zero ha hl = absurd (omega arith)
enough_digits (suc a) b (suc more) (suc less) ha hl =
    ap (λ (rest : ℕ). rest * 2 + differ (suc a % 2) (b % 2))
      (enough_digits (suc a / 2) (b / 2) more less (omega arith) (omega arith))

pub zero-bit_xor : (b : ℕ) → bit_xor 0 b ≡ b
zero-bit_xor b = bit_xor-bitwise 0 b

differ-eq : (a b : ℕ) → a < 2 → b < 2 → differ a b ≡ (a + b) % 2
differ-eq zero zero p q = refl
differ-eq zero (suc zero) p q = refl
differ-eq zero (suc (suc b)) p q = absurd (omega arith)
differ-eq (suc zero) zero p q = refl
differ-eq (suc zero) (suc zero) p q = refl
differ-eq (suc zero) (suc (suc b)) p q = absurd (omega arith)
differ-eq (suc (suc a)) b p q = absurd (omega arith)

-- The equation for the lowest digit.
pub bit_xor_step : (a b : ℕ) → bit_xor a b ≡ bit_xor (a / 2) (b / 2) * 2 + (a % 2 + b % 2) % 2
bit_xor_step zero b = omega (arith, zero-bit_xor b, zero-bit_xor (b / 2))
bit_xor_step (suc a) b = omega (
  arith,
  bit_xor-bitwise (suc a) b,
  bit_xor-bitwise (suc a / 2) (b / 2),
  enough_digits (suc a / 2) (b / 2) a (suc a / 2) (omega arith) (omega arith),
  differ-eq (suc a % 2) (b % 2) (omega arith) (omega arith),
)

comm_fuel : (n a b : ℕ) → a ≤ n → b ≤ n → bit_xor a b ≡ bit_xor b a
comm_fuel zero a b p q = let ea : a ≡ 0 = omega arith in let eb : b ≡ 0 = omega arith in rw (ea, eb)
comm_fuel (suc n) a b p q = omega (
  arith,
  bit_xor_step a b,
  bit_xor_step b a,
  comm_fuel n (a / 2) (b / 2) (omega arith) (omega arith),
)

pub bit_xor_comm : (a b : ℕ) → bit_xor a b ≡ bit_xor b a
bit_xor_comm a b = comm_fuel (a + b) a b (omega arith) (omega arith)

pub bit_xor-zero : (a : ℕ) → bit_xor a 0 ≡ a
bit_xor-zero a = bit_xor_comm a 0 ∙ zero-bit_xor a

-- The mask of the lowest digit.
abbrev and_digits : ℕ → ℕ → ℕ → ℕ
and_digits n a b = digits (λ y. zero) min n a b

and_digits-zero : (n a : ℕ) → and_digits n a 0 ≡ 0
and_digits-zero zero a = refl
and_digits-zero (suc n) zero = refl
and_digits-zero (suc n) (suc a) = omega (arith, and_digits-zero n (suc a / 2))

pub bit_and-one : (a : ℕ) → bit_and a 1 ≡ a % 2
bit_and-one zero = refl
bit_and-one (suc a) = omega (arith, bit_and-bitwise (suc a) 1, and_digits-zero a (suc a / 2))

-- Halving and the lowest digit of an exclusive or.
pub bit_xor_half : (a b : ℕ) → bit_xor a b / 2 ≡ bit_xor (a / 2) (b / 2)
bit_xor_half a b = omega (arith, bit_xor_step a b)

pub bit_xor_low : (a b : ℕ) → bit_xor a b % 2 ≡ (a % 2 + b % 2) % 2
bit_xor_low a b = omega (arith, bit_xor_step a b)

assoc_fuel :
    (n a b c : ℕ) → a ≤ n → b ≤ n → c ≤ n → bit_xor (bit_xor a b) c ≡ bit_xor a (bit_xor b c)
assoc_fuel zero a b c p q r =
    let ea : a ≡ 0 = omega arith in
    let eb : b ≡ 0 = omega arith in let ec : c ≡ 0 = omega arith in rw (ea, eb, ec)
assoc_fuel (suc n) a b c p q r = omega (
  arith,
  bit_xor_step (bit_xor a b) c,
  bit_xor_step a (bit_xor b c),
  bit_xor_low a b,
  bit_xor_low b c,
  ap (λ (t : ℕ). bit_xor t (c / 2)) (bit_xor_half a b),
  ap (λ (t : ℕ). bit_xor (a / 2) t) (bit_xor_half b c),
  assoc_fuel n (a / 2) (b / 2) (c / 2) (omega arith) (omega arith) (omega arith),
)

pub bit_xor_assoc : (a b c : ℕ) → bit_xor (bit_xor a b) c ≡ bit_xor a (bit_xor b c)
bit_xor_assoc a b c = assoc_fuel (a + b + c) a b c (omega arith) (omega arith) (omega arith)

self_fuel : (n a : ℕ) → a ≤ n → bit_xor a a ≡ 0
self_fuel zero a p = let e : a ≡ 0 = omega arith in rw e
self_fuel (suc n) a p = omega (arith, bit_xor_step a a, self_fuel n (a / 2) (omega arith))

pub bit_xor_self : (a : ℕ) → bit_xor a a ≡ 0
bit_xor_self a = self_fuel a a (omega arith)

-- Adding the same value twice changes nothing.
pub bit_xor_cancel : (a b : ℕ) → bit_xor (bit_xor a b) b ≡ a
bit_xor_cancel a b = rw (bit_xor_assoc a b b, bit_xor_self b) (bit_xor-zero a)

pub bit_xor_cancel_left : (a b : ℕ) → bit_xor a (bit_xor a b) ≡ b
bit_xor_cancel_left a b =
    sym (bit_xor_assoc a a b) ∙ ap (λ t. bit_xor t b) (bit_xor_self a) ∙ zero-bit_xor b

pub eq_of_bit_xor-zero : (a b : ℕ) → bit_xor a b ≡ 0 → a ≡ b
eq_of_bit_xor-zero a b h = sym (bit_xor_cancel a b) ∙ ap (λ t. bit_xor t b) h ∙ zero-bit_xor b

-- Two sums, regrouped.
pub bit_xor_middle :
    (a b c d : ℕ) → bit_xor (bit_xor a b) (bit_xor c d) ≡ bit_xor (bit_xor a c) (bit_xor b d)
bit_xor_middle a b c d =
    bit_xor_assoc a b (bit_xor c d)
    ∙ ap (bit_xor a)
        (sym (bit_xor_assoc b c d) ∙ ap (λ t. bit_xor t d) (bit_xor_comm b c) ∙ bit_xor_assoc c b d)
    ∙ sym (bit_xor_assoc a c (bit_xor b d))

scale-pow-suc : (k x : ℕ) → x * 2 ^ suc k ≡ x * 2 ^ k * 2
scale-pow-suc k x = ap (λ t. x * t) (pow-suc 2 k) ∙ sym (mul_assoc x (2 ^ k) 2)

-- The fields of `k` low bits and of the others do not meet.
pub bit_xor_fields :
    (k p q r s : ℕ)
    → r < 2 ^ k
    → s < 2 ^ k
    → bit_xor (p * 2 ^ k + r) (q * 2 ^ k + s) ≡ bit_xor p q * 2 ^ k + bit_xor r s
bit_xor_fields zero p q r s hr hs =
    let er : r ≡ 0 = omega arith in
    let es : s ≡ 0 = omega arith in
    let ep : p * 1 + 0 ≡ p = omega arith in
    let eq : q * 1 + 0 ≡ q = omega arith in rw (er, es, ep, eq) (omega arith)
bit_xor_fields (suc k) p q r s hr hs = ground (
  arith,
  pow-suc 2 k,
  scale-pow-suc k p,
  scale-pow-suc k q,
  scale-pow-suc k (bit_xor p q),
  bit_xor_step (p * 2 ^ suc k + r) (q * 2 ^ suc k + s),
  bit_xor_step r s,
  bit_xor_fields k p q (r / 2) (s / 2) (omega (arith, pow-suc 2 k)) (omega (arith, pow-suc 2 k)),
)

pub bit_xor-lt : (k a b : ℕ) → a < 2 ^ k → b < 2 ^ k → bit_xor a b < 2 ^ k
bit_xor-lt zero a b p q =
    let ea : a ≡ 0 = omega arith in let eb : b ≡ 0 = omega arith in rw (ea, eb) (omega arith)
bit_xor-lt (suc k) a b p q = omega (
  arith,
  pow-suc 2 k,
  bit_xor_step a b,
  bit_xor-lt k (a / 2) (b / 2) (omega (arith, pow-suc 2 k)) (omega (arith, pow-suc 2 k)),
)

pub bit_xor_double : (a b : ℕ) → bit_xor (a * 2) (b * 2) ≡ bit_xor a b * 2
bit_xor_double a b = ground (arith, bit_xor_step (a * 2) (b * 2))

-- A number with the bit `k` set on top of its lower bits.
pub bit_xor-pow_top : (k r : ℕ) → r < 2 ^ k → bit_xor (2 ^ k) r ≡ 2 ^ k + r
bit_xor-pow_top k r h =
    let e : bit_xor (1 * 2 ^ k + 0) (0 * 2 ^ k + r) ≡ bit_xor 1 0 * 2 ^ k + bit_xor 0 r =
      bit_xor_fields k 1 0 0 r (omega arith) h in
    ground (arith, e, zero-bit_xor r)

pub pow_pos : (k : ℕ) → 0 < 2 ^ k
pow_pos k = one-le-pow k 2 (omega arith)

-- Multiples of a power of two, and remainders by one.
pub bit_xor_mul_pow : (k a b : ℕ) → bit_xor (a * 2 ^ k) (b * 2 ^ k) ≡ bit_xor a b * 2 ^ k
bit_xor_mul_pow k a b =
    let e : bit_xor (a * 2 ^ k + 0) (b * 2 ^ k + 0) ≡ bit_xor a b * 2 ^ k + bit_xor 0 0 =
      bit_xor_fields k a b 0 0 (pow_pos k) (pow_pos k) in
    ground (arith, e)

pub bit_xor_mod_pow : (k a b : ℕ) → bit_xor a b % 2 ^ k ≡ bit_xor (a % 2 ^ k) (b % 2 ^ k)
bit_xor_mod_pow k a b =
    let m = 2 ^ k in
    let ea : a / m * m + a % m ≡ a = div-add-mod' a m in
    let eb : b / m * m + b % m ≡ b = div-add-mod' b m in
    let lt : bit_xor (a % m) (b % m) < m =
      bit_xor-lt k (a % m) (b % m) (mod-lt a (pow_pos k)) (mod-lt b (pow_pos k)) in
    let parts : bit_xor a b ≡ bit_xor (a / m) (b / m) * m + bit_xor (a % m) (b % m) =
      ap₂ bit_xor (sym ea) (sym eb)
      ∙ bit_xor_fields k (a / m) (b / m) (a % m) (b % m) (mod-lt a (pow_pos k))
          (mod-lt b (pow_pos k)) in
    ap (λ t. t % m) parts
    ∙ mul-add-mod_self_right (bit_xor (a / m) (b / m)) m (bit_xor (a % m) (b % m))
    ∙ mod-eq_of_lt lt

pub pow_add : (b m n : ℕ) → b ^ (m + n) ≡ b ^ m * b ^ n
pow_add b zero n =
    ap (λ (t : ℕ). b ^ t) (add.zero n) ∙ omega (arith, ap (λ (t : ℕ). t * b ^ n) (pow-zero b))
pow_add b (suc m) n = omega (
  arith,
  pow-suc b (m + n),
  pow-suc b m,
  ap (λ (t : ℕ). b * t) (pow_add b m n),
  ap (λ (t : ℕ). t * b ^ n) (pow-suc b m),
  ap (λ (t : ℕ). b ^ t) (add.suc m n),
)

-- Two numbers with the same top bit lose it.
pub bit_xor_same_top :
    (k a b : ℕ) → 2 ^ k ≤ a → a < 2 ^ suc k → 2 ^ k ≤ b → b < 2 ^ suc k → bit_xor a b < 2 ^ k
bit_xor_same_top k a b pa qa pb qb =
    let m = 2 ^ k in
    let top : 2 ^ suc k ≡ m + m = two-pow-succ k in
    let ea : 1 * m + (a - m) ≡ a = omega arith in
    let eb : 1 * m + (b - m) ≡ b = omega arith in
    let parts : bit_xor (1 * m + (a - m)) (1 * m + (b - m))
        ≡ bit_xor 1 1 * m + bit_xor (a - m) (b - m) =
      bit_xor_fields k 1 1 (a - m) (b - m) (omega arith) (omega arith) in
    omega
      (arith, ap₂ bit_xor ea eb, parts, bit_xor-lt k (a - m) (b - m) (omega arith) (omega arith))

div_pow_suc : (k a : ℕ) → a / 2 ^ suc k ≡ a / 2 / 2 ^ k
div_pow_suc k a = ap (λ t. a / t) (pow-succ' 2 k) ∙ sym (div-div-eq-div-mul a 2 (2 ^ k))

pub bit_xor_div_pow : (k a b : ℕ) → bit_xor a b / 2 ^ k ≡ bit_xor (a / 2 ^ k) (b / 2 ^ k)
bit_xor_div_pow zero a b = omega (arith, ap₂ bit_xor (div-one a) (div-one b), pow-zero 2)
bit_xor_div_pow (suc k) a b =
    div_pow_suc k (bit_xor a b)
    ∙ ap (λ t. t / 2 ^ k) (bit_xor_half a b)
    ∙ bit_xor_div_pow k (a / 2) (b / 2)
    ∙ sym (ap₂ bit_xor (div_pow_suc k a) (div_pow_suc k b))
