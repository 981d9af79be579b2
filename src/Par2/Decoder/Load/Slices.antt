-- ===== src/Par2/Decoder/Load/Slices.antt =====
-- The slices of a data file at each of its offsets, and the CRC32 of one after the other.
use gopar.Common.{
  ℕ, zero, suc, ◌+◌, ◌-◌, ◌<◌, ◌≤◌, ◌≡◌, ◌∙◌, sym, ap, refl, ltb, some, [], ◌∷◌, ◌++◌, length,
  get_or, take, drop, replicate, Bool-cases, inl, inr, arith, length-append, length-replicate,
  length-drop, length-take, get_or-append_left, get_or-take,
}
use mathlib.Core.Path.{ap₂}
use mathlib.Core.List.{append-nil}
use gopar.Common.Bytes.{Bytes, AreBytes}
use gopar.Par2.Crc32.{Crc32Window, new_crc32_window, update, checksum_ieee}
use gopar.Par2.Crc32.Window.{update-checksum_ieee}
use gopar.Par2.DataFile.{slice_and_pad_byte_array}
use gopar.Par2.DataFile.Shards.{length-slice_and_pad_byte_array}

drop-append_le : (n : ℕ) (xs ys : Bytes) → n ≤ length xs → drop n (xs ++ ys) ≡ drop n xs ++ ys
drop-append_le zero xs ys h = refl
drop-append_le (suc n) [] ys h = absurd (omega arith)
drop-append_le (suc n) (x ∷ xs) ys h = drop-append_le n xs ys (omega arith)

take-append_le : (n : ℕ) (xs ys : Bytes) → n ≤ length xs → take n (xs ++ ys) ≡ take n xs
take-append_le zero xs ys h = refl
take-append_le (suc n) [] ys h = absurd (omega arith)
take-append_le (suc n) (x ∷ xs) ys h = ap (λ t. x ∷ t) (take-append_le n xs ys (omega arith))

take-append_ge :
    (n : ℕ) (xs ys : Bytes) → length xs ≤ n → take n (xs ++ ys) ≡ xs ++ take (n - length xs) ys
take-append_ge n [] ys h = let e : n - 0 ≡ n = omega arith in ap (λ (k : ℕ). take k ys) (sym e)
take-append_ge zero (x ∷ xs) ys h = absurd (omega arith)
take-append_ge (suc n) (x ∷ xs) ys h =
    let e : n - length xs ≡ suc n - suc (length xs) = omega arith in
    ap (λ t. x ∷ t) (take-append_ge n xs ys (omega arith) ∙ ap (λ (k : ℕ). xs ++ take k ys) e)

take-replicate : (k n : ℕ) (b : ℕ) → k ≤ n → take k (replicate n b) ≡ replicate k b
take-replicate zero n b h = refl
take-replicate (suc k) zero b h = absurd (omega arith)
take-replicate (suc k) (suc n) b h = ap (λ t. b ∷ t) (take-replicate k n b (omega arith))

take-all : (n : ℕ) (xs : Bytes) → length xs ≤ n → take n xs ≡ xs
take-all zero [] h = refl
take-all zero (x ∷ xs) h = absurd (omega arith)
take-all (suc n) [] h = refl
take-all (suc n) (x ∷ xs) h = ap (λ t. x ∷ t) (take-all n xs (omega arith))

drop-cons : (j : ℕ) (xs : Bytes) → j < length xs → drop j xs ≡ get_or xs j 0 ∷ drop (suc j) xs
drop-cons j [] h = absurd (omega arith)
drop-cons zero (x ∷ xs) h = refl
drop-cons (suc j) (x ∷ xs) h = drop-cons j xs (omega arith)

take-snoc :
    (m : ℕ) (ys : Bytes) → m < length ys → take (suc m) ys ≡ take m ys ++ (get_or ys m 0 ∷ [])
take-snoc m [] h = absurd (omega arith)
take-snoc zero (y ∷ ys) h = refl
take-snoc (suc m) (y ∷ ys) h = ap (λ t. y ∷ t) (take-snoc m ys (omega arith))

AreBytes-get_or : (bs : Bytes) (j : ℕ) → AreBytes bs → get_or bs j 0 < 256
AreBytes-get_or [] j h = omega arith
AreBytes-get_or (b ∷ bs) zero h = h.0
AreBytes-get_or (b ∷ bs) (suc j) h = AreBytes-get_or bs j h.1

module _ (size : ℕ) (bs : Bytes) where
  abbrev pub slice_at : ℕ → Bytes
  slice_at j = slice_and_pad_byte_array bs j (j + size)

  -- The bytes with a slice of null bytes behind them.
  abbrev padded : Bytes
  padded = bs ++ replicate size 0

  -- A slice is cut out of the padded bytes.
  slice_at-padded : (j : ℕ) → j ≤ length bs → slice_at j ≡ take size (drop j padded)
  unfolding slice_and_pad_byte_array
  slice_at-padded j h =
      let rest = drop j bs in
      let whole : drop j padded ≡ rest ++ replicate size 0 =
        drop-append_le j bs (replicate size 0) h in
      let size_of = length-drop j bs in
      elim (Bool-cases (ltb (length bs) (j + size))) [
        | inl past ↦
            let over : length bs < j + size = ground arith in
            let pad : size - length rest ≡ j + size - length bs = omega arith in
            rw past (
              ap (λ t. t ++ replicate (j + size - length bs) 0)
                (take-all (length bs - j) rest (omega arith))
              ∙ ap (λ (k : ℕ). rest ++ replicate k 0) (sym pad)
              ∙ ap (λ t. rest ++ t) (sym (take-replicate (size - length rest) size 0 (omega arith)))
              ∙ sym (take-append_ge size rest (replicate size 0) (omega arith))
              ∙ ap (take size) (sym whole))
        | inr inside ↦
            let under : j + size ≤ length bs = ground arith in
            let e : j + size - j ≡ size = omega arith in
            rw (inside, e)
              (append-nil (take size rest)
                ∙ sym (take-append_le size rest (replicate size 0) (omega arith))
                ∙ ap (take size) (sym whole))
      ]

-- The window moves from one slice to the next.
slice_at-next :
    (m : ℕ) (bs : Bytes) (j : ℕ)
    → j < length bs
    → (middle : Bytes) × (slice_at (suc m) bs j ≡ get_or bs j 0 ∷ middle)
      × ((length middle ≡ m)
          × (slice_at (suc m) bs (suc j)
              ≡ middle
                ++ (get_or
                      (slice_at (suc m) bs (suc j))
                      (length (slice_at (suc m) bs (suc j)) - 1)
                      0
                    ∷ [])))
slice_at-next m bs j h =
    let P = padded (suc m) bs in
    let ys = drop (suc j) P in
    let size_of : length P ≡ length bs + suc m =
      length-append bs (replicate (suc m) 0)
      ∙ ap (λ (k : ℕ). length bs + k) (length-replicate {A = ℕ} (suc m) 0) in
    let rest_size : length ys ≡ length P - suc j = length-drop (suc j) P in
    let here : slice_at (suc m) bs j ≡ get_or bs j 0 ∷ take m ys =
      slice_at-padded (suc m) bs j (omega arith)
      ∙ ap (take (suc m)) (drop-cons j P (omega arith))
      ∙ ap (λ (b : ℕ). b ∷ take m ys) (get_or-append_left bs (replicate (suc m) 0) j 0 h) in
    let next : slice_at (suc m) bs (suc j) ≡ take (suc m) ys =
      slice_at-padded (suc m) bs (suc j) (omega arith) in
    let last_size : length (slice_at (suc m) bs (suc j)) ≡ suc m =
      length-slice_and_pad_byte_array bs (suc j) (suc m) (omega arith) in
    let last : get_or ys m 0
        ≡ get_or (slice_at (suc m) bs (suc j)) (length (slice_at (suc m) bs (suc j)) - 1) 0 =
      sym (get_or-take (suc m) m ys 0 (omega arith))
      ∙ ap₂ (λ xs (k : ℕ). get_or xs k 0) (sym next) (omega arith) in
    (
      take m ys,
      here,
      (
        omega (arith, length-take m ys),
        next ∙ take-snoc m ys (omega arith) ∙ ap (λ (b : ℕ). take m ys ++ (b ∷ [])) last,
      ),
    )

-- The CRC32 of the next slice is that of the window moved on.
pub moved_crc :
    (size : ℕ) (bs : Bytes) (window : Crc32Window) (k crc : ℕ)
    → new_crc32_window size ≡ some window
    → AreBytes bs
    → 0 < size
    → k < length bs
    → crc ≡ checksum_ieee (slice_at size bs k)
    → update window crc
        (get_or bs k 0)
        (get_or (slice_at size bs (suc k)) (length (slice_at size bs (suc k)) - 1) 0)
      ≡ checksum_ieee (slice_at size bs (suc k))
moved_crc zero bs window k crc made bytes pos inside last = absurd (omega arith)
moved_crc (suc m) bs window k crc made bytes pos inside last =
    let (middle, here, (size_of, next)) = slice_at-next m bs k inside in
    let trailer =
      get_or (slice_at (suc m) bs (suc k)) (length (slice_at (suc m) bs (suc k)) - 1) 0 in
    ap (λ (c : ℕ). update window c (get_or bs k 0) trailer) (last ∙ ap checksum_ieee here)
    ∙ update-checksum_ieee (suc m) window (get_or bs k 0) trailer middle made
        (AreBytes-get_or bs k bytes) (ap suc size_of)
    ∙ ap checksum_ieee (sym next)
