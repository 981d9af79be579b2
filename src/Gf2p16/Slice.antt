-- ===== src/Gf2p16/Slice.antt =====
-- gf2p16/slice.go and the table of products in gf2p16/t.go: products of slices of elements, and of
-- byte slices that hold elements in pairs of bytes, the low one first.
use gopar.Common.{
  ℕ, ◌+◌, ◌*◌, ◌/◌, ◌%◌, ◌^◌, ◌<◌, ◌≡◌, bit_xor, refl, sym, ap, ◌∙◌, List, [], ◌∷◌, length, All,
  arith, map,
}
use mathlib.Core.Path.{ap₂}
use gopar.Common.Bytes.{Bytes, AreBytes}
use gopar.Common.Bits.{bit_xor_fields, zero-bit_xor, bit_xor-zero}
use gopar.Gf2p16.T.{T, Tables, plus, times}
use gopar.Gf2p16.T.Init.{IsFilled}
use gopar.Gf2p16.T.Field.{times-plus, times-lt}

module _ (tables : Tables) where
  -- The entries mulTable[c].s0[j] and mulTable[c].s8[j], as init computes them.
  unfoldable pub s0 : T → ℕ → T
  s0 c j = times tables c j

  unfoldable pub s8 : T → ℕ → T
  s8 c j = times tables c (j * 2 ^ 8 % 2 ^ 16)

  -- A slice of odd length panics in the source; here its last byte is dropped.
  unfoldable pub mul_byte_slice_le_generic : T → Bytes → Bytes
  mul_byte_slice_le_generic c [] = []
  mul_byte_slice_le_generic c (a ∷ []) = []
  mul_byte_slice_le_generic c (a ∷ (b ∷ bs)) =
      let cx = bit_xor (s0 c a) (s8 c b) in
      (cx % 2 ^ 8) ∷ ((cx / 2 ^ 8 % 2 ^ 8) ∷ mul_byte_slice_le_generic c bs)

  unfoldable pub mul_and_add_byte_slice_le_generic : T → Bytes → Bytes → Bytes
  mul_and_add_byte_slice_le_generic c (a ∷ (b ∷ bs)) (x ∷ (y ∷ out)) =
      let cx = bit_xor (s0 c a) (s8 c b) in
      bit_xor x (cx % 2 ^ 8)
      ∷ (bit_xor y (cx / 2 ^ 8 % 2 ^ 8) ∷ mul_and_add_byte_slice_le_generic c bs out)
  mul_and_add_byte_slice_le_generic c bs out = out

  -- in[i]&0xff is the remainder by 2 ^ 8.
  unfoldable pub mul_slice_generic : T → List T → List T
  mul_slice_generic c [] = []
  mul_slice_generic c (x ∷ xs) =
      bit_xor (s0 c (x % 2 ^ 8)) (s8 c (x / 2 ^ 8)) ∷ mul_slice_generic c xs

  unfoldable pub mul_and_add_slice_generic : T → List T → List T → List T
  mul_and_add_slice_generic c (x ∷ xs) (y ∷ out) =
      bit_xor y (bit_xor (s0 c (x % 2 ^ 8)) (s8 c (x / 2 ^ 8))) ∷ mul_and_add_slice_generic c xs out
  mul_and_add_slice_generic c xs out = out

-- The elements that a byte slice holds.
unfoldable pub words : Bytes → List T
words [] = []
words (a ∷ []) = []
words (a ∷ (b ∷ bs)) = (a + b * 2 ^ 8) ∷ words bs

-- The products of elements, added to others.
unfoldable pub add_products : Tables → T → List T → List T → List T
add_products tables c (x ∷ xs) (y ∷ ys) = plus y (times tables c x) ∷ add_products tables c xs ys
add_products tables c [] ys = ys
add_products tables c (x ∷ xs) [] = []

abbrev pub AreElements : List T → Type 0
AreElements = All (λ t. t < 2 ^ 16)

-- A number of 16 bits is the exclusive or of its bytes at their places.
bytes_disjoint : (a b : ℕ) → a < 2 ^ 8 → bit_xor a (b * 2 ^ 8) ≡ a + b * 2 ^ 8
bytes_disjoint a b h =
    let fields : bit_xor (0 * 2 ^ 8 + a) (b * 2 ^ 8 + 0) ≡ bit_xor 0 b * 2 ^ 8 + bit_xor a 0 =
      bit_xor_fields 8 0 b a 0 h (omega arith) in
    ground (arith, fields, zero-bit_xor b, bit_xor-zero a)

xor_bytes :
    (x y p : ℕ)
    → x < 2 ^ 8
    → p < 2 ^ 16
    → bit_xor x (p % 2 ^ 8) + bit_xor y (p / 2 ^ 8 % 2 ^ 8) * 2 ^ 8 ≡ bit_xor (x + y * 2 ^ 8) p
xor_bytes x y p hx hp =
    let fields : bit_xor (y * 2 ^ 8 + x) (p / 2 ^ 8 * 2 ^ 8 + p % 2 ^ 8)
        ≡ bit_xor y (p / 2 ^ 8) * 2 ^ 8 + bit_xor x (p % 2 ^ 8) =
      bit_xor_fields 8 y (p / 2 ^ 8) x (p % 2 ^ 8) hx (omega arith) in
    let high : p / 2 ^ 8 % 2 ^ 8 ≡ p / 2 ^ 8 = omega arith in
    let whole : p / 2 ^ 8 * 2 ^ 8 + p % 2 ^ 8 ≡ p = omega arith in
    let left : y * 2 ^ 8 + x ≡ x + y * 2 ^ 8 = omega arith in
    omega (
      arith,
      fields,
      ap (λ (t : ℕ). bit_xor y t) high,
      ap (λ (t : ℕ). bit_xor (y * 2 ^ 8 + x) t) whole,
      ap (λ (t : ℕ). bit_xor t p) left,
    )

module _ (tables : Tables) (full : IsFilled 65535 tables) where
  table_product :
      (c a b : ℕ)
      → c < 2 ^ 16
      → a < 2 ^ 8
      → b < 2 ^ 8
      → bit_xor (s0 tables c a) (s8 tables c b) ≡ times tables c (a + b * 2 ^ 8)
  unfolding s0 s8
  table_product c a b hc ha hb =
      let shifted : b * 2 ^ 8 % 2 ^ 16 ≡ b * 2 ^ 8 = omega arith in
      let together = times-plus tables full c a (b * 2 ^ 8) hc (omega arith) (omega arith) in
      ap (λ (t : ℕ). bit_xor (times tables c a) (times tables c t)) shifted
      ∙ unfold plus in sym together ∙ ap (times tables c) (bytes_disjoint a b ha)

  mul-words :
      (c : T) (bs : Bytes)
      → c < 2 ^ 16
      → AreBytes bs
      → words (mul_byte_slice_le_generic tables c bs) ≡ map (times tables c) (words bs)
  unfolding words mul_byte_slice_le_generic
  mul-words c [] hc h = refl
  mul-words c (a ∷ []) hc h = refl
  mul-words c (a ∷ (b ∷ bs)) hc h =
      let cx = bit_xor (s0 tables c a) (s8 tables c b) in
      let product = table_product c a b hc h.0 h.1.0 in
      let small = times-lt tables full c (a + b * 2 ^ 8) hc (omega (arith, h)) in
      let whole : cx % 2 ^ 8 + cx / 2 ^ 8 % 2 ^ 8 * 2 ^ 8 ≡ times tables c (a + b * 2 ^ 8) =
        omega (arith, product, small) in
      ap₂ ◌∷◌ whole (mul-words c bs hc h.1.1)

  mul_and_add-words :
      (c : T) (bs out : Bytes)
      → c < 2 ^ 16
      → AreBytes bs
      → AreBytes out
      → length bs ≡ length out
      → words (mul_and_add_byte_slice_le_generic tables c bs out)
        ≡ add_products tables c (words bs) (words out)
  unfolding words mul_and_add_byte_slice_le_generic add_products plus
  mul_and_add-words c [] out hc h k e = refl
  mul_and_add-words c (a ∷ []) [] hc h k e = refl
  mul_and_add-words c (a ∷ []) (x ∷ []) hc h k e = refl
  mul_and_add-words c (a ∷ []) (x ∷ (y ∷ out)) hc h k e = absurd (omega arith)
  mul_and_add-words c (a ∷ (b ∷ bs)) [] hc h k e = absurd (omega arith)
  mul_and_add-words c (a ∷ (b ∷ bs)) (x ∷ []) hc h k e = absurd (omega arith)
  mul_and_add-words c (a ∷ (b ∷ bs)) (x ∷ (y ∷ out)) hc h k e =
      let cx = bit_xor (s0 tables c a) (s8 tables c b) in
      let product = table_product c a b hc h.0 h.1.0 in
      let small = times-lt tables full c (a + b * 2 ^ 8) hc (omega (arith, h)) in
      let whole = xor_bytes x y cx k.0 (omega (arith, product, small)) in
      ap₂ ◌∷◌ (whole ∙ ap (bit_xor (x + y * 2 ^ 8)) product)
        (mul_and_add-words c bs out hc h.1.1 k.1.1 (omega arith))

  entry_product :
      (c x : T)
      → c < 2 ^ 16
      → x < 2 ^ 16
      → bit_xor (s0 tables c (x % 2 ^ 8)) (s8 tables c (x / 2 ^ 8)) ≡ times tables c x
  entry_product c x hc hx =
      table_product c (x % 2 ^ 8) (x / 2 ^ 8) hc (omega arith) (omega arith)
      ∙ ap (times tables c) (omega arith)

  mul_slice-map :
      (c : T) (xs : List T)
      → c < 2 ^ 16
      → AreElements xs
      → mul_slice_generic tables c xs ≡ map (times tables c) xs
  unfolding mul_slice_generic
  mul_slice-map c [] hc h = refl
  mul_slice-map c (x ∷ xs) hc h = ap₂ ◌∷◌ (entry_product c x hc h.0) (mul_slice-map c xs hc h.1)

  mul_and_add_slice-add_products :
      (c : T) (xs out : List T)
      → c < 2 ^ 16
      → AreElements xs
      → length xs ≡ length out
      → mul_and_add_slice_generic tables c xs out ≡ add_products tables c xs out
  unfolding mul_and_add_slice_generic add_products plus
  mul_and_add_slice-add_products c [] out hc h e = refl
  mul_and_add_slice-add_products c (x ∷ xs) [] hc h e = absurd (omega arith)
  mul_and_add_slice-add_products c (x ∷ xs) (y ∷ out) hc h e =
      ap₂ ◌∷◌ (ap (bit_xor y) (entry_product c x hc h.0))
        (mul_and_add_slice-add_products c xs out hc h.1 (omega arith))

  -- mulSliceGeneric multiplies each element by `c`, and mulAndAddSliceGeneric adds the products to
  -- the elements of another slice of the same length.
  pub mul_slice_generic-map :
      (c : T) (xs out : List T)
      → c < 2 ^ 16
      → AreElements xs
      → length xs ≡ length out
      → (mul_slice_generic tables c xs ≡ map (times tables c) xs)
        × (mul_and_add_slice_generic tables c xs out ≡ add_products tables c xs out)
  mul_slice_generic-map c xs out hc h e =
      (mul_slice-map c xs hc h, mul_and_add_slice-add_products c xs out hc h e)

  -- On byte slices that hold elements, mulByteSliceLEGeneric multiplies each element by `c`, and
  -- mulAndAddByteSliceLEGeneric adds these products to the elements of another slice of the
  -- same length.
  pub mul_byte_slice_le_generic-words :
      (c : T) (bs out : Bytes)
      → c < 2 ^ 16
      → AreBytes bs
      → AreBytes out
      → length bs ≡ length out
      → (words (mul_byte_slice_le_generic tables c bs) ≡ map (times tables c) (words bs))
        × (words (mul_and_add_byte_slice_le_generic tables c bs out)
            ≡ add_products tables c (words bs) (words out))
  mul_byte_slice_le_generic-words c bs out hc hb ho e =
      (mul-words c bs hc hb, mul_and_add-words c bs out hc hb ho e)
