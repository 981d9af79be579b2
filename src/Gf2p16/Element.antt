-- ===== src/Gf2p16/Element.antt =====
-- GF(2^16) as a field: the elements are the uint16s, and the operations those of t.go with the
-- tables of init.
use gopar.Common.{ℕ, zero, suc, ◌^◌, ◌<◌, ◌==◌, ◌≡◌, ◌≢◌, ap, ==_iff, arith}
use mathlib.Core.Option
use mathlib.Core.HLevel.{Σ_prop_path}
use native.Mathlib.Bridge.{le_prop}
use gopar.Common.Bits.{bit_xor-lt, bit_xor_assoc, bit_xor_comm, bit_xor_self, zero-bit_xor}
use gopar.Gf2p16.T.{T, Tables, plus, times, inverse}
use gopar.Gf2p16.T.Init.{IsFilled}
use gopar.Gf2p16.T.Field.{times-lt, times_comm, times_assoc, one-times, times-plus, inverse-times}
use gopar.Gf2p16.Algebra.{Field}

abbrev pub Element : Type 0
Element = (n : ℕ) × (n < 2 ^ 16)

pub zero_fits : 0 < 2 ^ 16
zero_fits = omega arith

pub one_fits : 1 < 2 ^ 16
one_fits = omega arith

abbrev pub zero_element : Element
zero_element = (0, zero_fits)

abbrev pub one_element : Element
one_element = (1, one_fits)

pub element_ext : (a b : Element) → a.0 ≡ b.0 → a ≡ b
element_ext a b e = Σ_prop_path (λ n. le_prop) e

plus_element : Element → Element → Element
unfolding plus
plus_element a b = (plus a.0 b.0, bit_xor-lt 16 a.0 b.0 a.1 b.1)

module _ (t : Tables) (full : IsFilled 65535 t) where
  times_element : Element → Element → Element
  times_element a b = (times t a.0 b.0, times-lt t full a.0 b.0 a.1 b.1)

  -- The inverse, and zero for the element that has none.
  unfoldable pub inverse_value : T → T
  inverse_value n = Option.get_or (inverse t n) 0

  pub inverse_value-lt : (n : ℕ) → n < 2 ^ 16 → inverse_value n < 2 ^ 16
  unfolding inverse_value
  inverse_value-lt zero h = unfold inverse in omega arith
  inverse_value-lt (suc n) h =
      let (v, e, lt, pos, unit) = inverse-times t full (suc n) h (omega arith) in rw e lt

  inverse_element : Element → Element
  inverse_element a = (inverse_value a.0, inverse_value-lt a.0 a.1)

  pub times-inverse_value : (n : ℕ) → n < 2 ^ 16 → n ≢ 0 → times t n (inverse_value n) ≡ 1
  unfolding inverse_value
  times-inverse_value n h ne =
      let (v, e, lt, pos, unit) = inverse-times t full n h (omega arith) in rw e unit

  unfoldable pub gf : Field
  unfolding times_element inverse_element plus_element plus
  gf = record {
    F = Element;
    zero = zero_element;
    one = one_element;
    add = plus_element;
    mul = times_element;
    inv = inverse_element;
    is_zero = λ a. a.0 == 0;
    is_zero_iff = λ a. (
      λ h. element_ext a zero_element ((==_iff a.0 0).0 h),
      λ h. (==_iff a.0 0).1 (ap (λ (x : Element). x.0) h),
    );
    zero-ne-one = λ e. absurd (omega (arith, ap (λ (x : Element). x.0) e));
    add_assoc = λ a b c. element_ext _ _ (bit_xor_assoc a.0 b.0 c.0);
    add_comm = λ a b. element_ext _ _ (bit_xor_comm a.0 b.0);
    zero-add = λ a. element_ext _ _ (zero-bit_xor a.0);
    add_self = λ a. element_ext _ _ (bit_xor_self a.0);
    mul_assoc = λ a b c. element_ext _ _ (times_assoc t full a.0 b.0 c.0 a.1 b.1 c.1);
    mul_comm = λ a b. element_ext _ _ (times_comm t full a.0 b.0 a.1 b.1);
    one-mul = λ a. element_ext _ _ (one-times t full a.0 a.1);
    mul-add = λ a b c. element_ext _ _ (times-plus t full a.0 b.0 c.0 a.1 b.1 c.1);
    mul-inv = λ a ne.
        element_ext _ _ (times-inverse_value a.0 a.1 (λ e. ne (element_ext a zero_element e)));
  }
