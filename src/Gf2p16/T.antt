-- ===== src/Gf2p16/T.antt =====
-- gf2p16/t.go: elements of GF(2^16) with logarithm and exponent tables.
pub mod Triple
pub mod Order
pub mod Init
pub mod Field
use gopar.Common.{
  ℕ, zero, suc, ◌+◌, ◌-◌, ◌*◌, ◌/◌, ◌%◌, ◌^◌, bit_xor, ◌==◌, ltb, ◌||◌, ◌&&◌, not, if◌then◌else◌,
  Option, none, some, Bool, true,
}
use gopar.Gf2.Poly64
use mathlib.Core.Option
use gopar.Gf2.Poly64.{QuotRem}

-- A T is a uint16, a number below 2 ^ 16.
abbrev pub T : Type 0
T = ℕ

unfoldable pub plus : T → T → T
plus t u = bit_xor t u

pub minus : T → T → T
minus t u = bit_xor t u

abbrev pub order : ℕ
order = 2 ^ 16

-- An array, as the function from its indices; a read or write past the end is tested for where it
-- can happen.
abbrev pub update : (ℕ → ℕ) → ℕ → ℕ → ℕ → ℕ
update f i v j = if j == i then v else f j

pub record Tables : Type 0 where
  pub log : ℕ → ℕ
  pub exp : ℕ → T

abbrev pub empty_tables : Tables
empty_tables = record { log = λ _. 0; exp = λ _. 0 }

-- The irreducible polynomial m of degree 16, and the generator g.
abbrev pub m : Poly64.Poly64
m = 0x1100b

abbrev pub g : T
g = 3

-- The index t-1 of a uint16.
abbrev pub pred16 : T → ℕ
pred16 t = (t + 0xffff) % 2 ^ 16

-- The checks of a round of init: `true` where it panics, also by an index out of range.
pub panics : ℕ → T → Tables → Bool
panics p x s =
    if x == 1 && not (p == 0)
    then true
    else if not (ltb (pred16 x) (order - 1))
    then true
    else if not (x == 1) && not (s.log (pred16 x) == 0)
    then true
    else not (s.exp p == 0)

-- x*g reduced mod m, cut to a uint16. `none` is the panic of Div.
pub next : T → Option T
next x = Option.map (λ (d : QuotRem). d.r % 2 ^ 16) (Poly64.div (Poly64.times x g) m)

-- The loop of init that fills the tables, with `rounds` left, at `p` and `x`. `none` is a panic.
pub fill : ℕ → ℕ → T → Tables → Option Tables
fill zero p x s = some s
fill (suc rounds) p x s = if panics p x s then none else elim (next x) [
  | none ↦ none
  | some x' ↦
      fill rounds (p + 1) x'
        (record { log = update s.log (pred16 x) (p % 2 ^ 16); exp = update s.exp p x })
]

unfoldable pub init : Option Tables
init = fill (order - 1) 0 1 empty_tables

module _ (tables : Tables) where
  open tables use {log, exp}

  unfoldable pub times : T → T → T
  times t u = if t == 0 || u == 0 then 0 else exp ((log (pred16 t) + log (pred16 u)) % (order - 1))

  -- `none` is the panic on zero.
  unfoldable pub inverse : T → Option T
  inverse t = if t == 0 then none else some (exp (((order - 1) - log (pred16 t)) % (order - 1)))

  pub div : T → T → Option T
  div t u =
      if u == 0
      then none
      else if t == 0
      then some 0
      else some (exp ((log (pred16 t) + (order - 1) - log (pred16 u)) % (order - 1)))

  -- The product is of uint64s.
  pub pow : T → ℕ → T
  pow t p =
      if t == 0 then (if p == 0 then 1 else 0) else exp (log (pred16 t) * p % 2 ^ 64 % (order - 1))
