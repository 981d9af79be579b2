-- ===== src/Gf2p16/T/Triple.antt =====
-- The step of the tables, x * g mod m, by plain arithmetic, and its iterates.
use gopar.Common.{ℕ, zero, suc, ◌+◌, ◌*◌, ◌/◌, ◌^◌, ◌<◌, bit_xor, ◌≡◌, refl, sym, ap, ◌∙◌, arith}
use Prim.Native.Nat.add
use native.Mathlib.Nat.{zero-mul}
use gopar.Common.Bits.{
  zero-bit_xor, bit_xor-zero, bit_xor_middle, bit_xor_double, bit_xor_div_pow, bit_xor-lt,
  bit_xor_same_top, bit_xor_self,
}

-- x + x * X, with the bit of X^16 taken off by m.
unfoldable pub triple : ℕ → ℕ
triple x = let y = bit_xor x (x * 2) in bit_xor y (y / 2 ^ 16 * 0x1100b)

-- The result of `n` steps.
unfoldable pub iter : ℕ → ℕ → ℕ
iter zero x = x
iter (suc n) x = iter n (triple x)

-- The bit of X^16 before the reduction.
abbrev pub carry : ℕ → ℕ
carry x = bit_xor x (x * 2) / 2 ^ 16

pub carry_bound : (x : ℕ) → x < 2 ^ 16 → carry x < 2
carry_bound x h = omega (arith, bit_xor-lt 17 x (x * 2) (omega arith) (omega arith))

pub triple-lt : (x : ℕ) → x < 2 ^ 16 → triple x < 2 ^ 16
unfolding triple
triple-lt x h = ground (
  arith,
  carry_bound x h,
  bit_xor_same_top 16 (bit_xor x (x * 2)) 0x1100b,
  bit_xor-zero (bit_xor x (x * 2)),
)

-- Multiples of m by a digit.
pub scaled_xor : (a b c : ℕ) → a < 2 → b < 2 → bit_xor (a * c) (b * c) ≡ bit_xor a b * c
scaled_xor zero b c ha hb =
    ap (λ t. bit_xor t (b * c)) (zero-mul c)
    ∙ zero-bit_xor (b * c)
    ∙ ap (λ (t : ℕ). t * c) (sym (zero-bit_xor b))
scaled_xor (suc zero) zero c ha hb = ap (bit_xor (1 * c)) (zero-mul c) ∙ bit_xor-zero (1 * c)
scaled_xor (suc zero) (suc zero) c ha hb = bit_xor_self (1 * c) ∙ sym (zero-mul c)
scaled_xor (suc zero) (suc (suc b)) c ha hb = absurd (omega arith)
scaled_xor (suc (suc a)) b c ha hb = absurd (omega arith)

pub triple_linear :
    (x y : ℕ) → x < 2 ^ 16 → y < 2 ^ 16 → triple (bit_xor x y) ≡ bit_xor (triple x) (triple y)
unfolding triple
triple_linear x y hx hy =
    let a = bit_xor x (x * 2) in
    let b = bit_xor y (y * 2) in
    let double : bit_xor x y * 2 ≡ bit_xor (x * 2) (y * 2) = sym (bit_xor_double x y) in
    let e : bit_xor (bit_xor x y) (bit_xor x y * 2) ≡ bit_xor a b =
      ap (bit_xor (bit_xor x y)) double ∙ bit_xor_middle x y (x * 2) (y * 2) in
    let top : bit_xor a b / 2 ^ 16 * 0x1100b
        ≡ bit_xor (a / 2 ^ 16 * 0x1100b) (b / 2 ^ 16 * 0x1100b) =
      ap (λ (t : ℕ). t * 0x1100b) (bit_xor_div_pow 16 a b)
      ∙ sym (scaled_xor (a / 2 ^ 16) (b / 2 ^ 16) 0x1100b (carry_bound x hx) (carry_bound y hy)) in
    ap (λ t. bit_xor t (t / 2 ^ 16 * 0x1100b)) e
    ∙ ap (bit_xor (bit_xor a b)) top
    ∙ bit_xor_middle a b (a / 2 ^ 16 * 0x1100b) (b / 2 ^ 16 * 0x1100b)

pub iter-lt : (n x : ℕ) → x < 2 ^ 16 → iter n x < 2 ^ 16
unfolding iter
iter-lt zero x h = h
iter-lt (suc n) x h = iter-lt n (triple x) (triple-lt x h)

pub iter_linear :
    (n x y : ℕ) → x < 2 ^ 16 → y < 2 ^ 16 → iter n (bit_xor x y) ≡ bit_xor (iter n x) (iter n y)
unfolding iter
iter_linear zero x y hx hy = refl
iter_linear (suc n) x y hx hy =
    ap (iter n) (triple_linear x y hx hy)
    ∙ iter_linear n (triple x) (triple y) (triple-lt x hx) (triple-lt y hy)

pub iter-zero : (n : ℕ) → iter n 0 ≡ 0
unfolding iter triple
iter-zero zero = refl
iter-zero (suc n) = iter-zero n

pub iter_add : (m n x : ℕ) → iter (m + n) x ≡ iter n (iter m x)
unfolding iter
iter_add zero n x = ap (λ (t : ℕ). iter t x) (add.zero n)
iter_add (suc m) n x = ap (λ (t : ℕ). iter t x) (add.suc m n) ∙ iter_add m n (triple x)

pub iter-suc : (n x : ℕ) → iter (suc n) x ≡ triple (iter n x)
unfolding iter
iter-suc zero x = refl
iter-suc (suc n) x = iter-suc n (triple x)

-- g to the power `p`.
abbrev pub power : ℕ → ℕ
power p = iter p 1

pub power-lt : (p : ℕ) → power p < 2 ^ 16
power-lt p = iter-lt p 1 (omega arith)
