-- ===== src/Par2/Strings.antt =====
-- par2/string.go and par2/creator_packet.go: null-padded ASCII. A string is its bytes.
use gopar.Common.{
  ℕ, ◌≡◌, ◌≤◌, ◌<◌, refl, ap, ◌∙◌, ◌==◌, ltb, leb, if◌then◌else◌, [], ◌∷◌, ◌++◌, All, replicate,
  arith, Bool-cases, inl, inr, suc, zero,
}
use gopar.Common.Bytes.{Bytes, Result, ok, err, ◌>>=◌}
use gopar.Par2.Error.{Error, invalid_ascii_character}

abbrev pub max_ascii : ℕ
max_ascii = 0x7f

unfoldable pub null_terminate : Bytes → Bytes
null_terminate [] = []
null_terminate (b ∷ bs) = if b == 0 then [] else b ∷ null_terminate bs

-- The bytes of U+FFFD, which utf8.EncodeRune writes.
abbrev pub replacement : Bytes
replacement = 0xef ∷ 0xbf ∷ 0xbd ∷ []

-- The loop of decodeNullPaddedASCIIString.
unfoldable pub replace_non_ascii : Bytes → Bytes
replace_non_ascii [] = []
replace_non_ascii (b ∷ bs) =
    (if leb b max_ascii then b ∷ [] else replacement) ++ replace_non_ascii bs

unfoldable pub decode_null_padded_ascii_string : Bytes → Bytes
unfolding null_terminate replace_non_ascii
decode_null_padded_ascii_string bs = replace_non_ascii (null_terminate bs)

-- A byte above 0x7f begins or breaks a rune above unicode.MaxASCII, so it is the first error.
unfoldable pub encode_ascii_string : Bytes → Result Error Bytes
encode_ascii_string [] = ok []
encode_ascii_string (c ∷ s) =
    let rest = encode_ascii_string s in
    if ltb max_ascii c then err invalid_ascii_character else (rest >>= λ bs. ok (c ∷ bs))

unfoldable pub read_creator_packet : Bytes → Bytes
unfolding decode_null_padded_ascii_string
read_creator_packet body = decode_null_padded_ascii_string body

unfoldable pub write_creator_packet : Bytes → Result Error Bytes
unfolding encode_ascii_string
write_creator_packet client_id = encode_ascii_string client_id

-- A text that the packets can carry: ASCII, and no null byte.
abbrev pub IsText : Bytes → Type 0
IsText = All (λ b. (0 < b) × (b ≤ 0x7f))

pub null_terminate-padded : (s : Bytes) (n : ℕ) → IsText s → null_terminate (s ++ replicate n 0) ≡ s
unfolding null_terminate
null_terminate-padded [] zero h = refl
null_terminate-padded [] (suc n) h = refl
null_terminate-padded (b ∷ s) n h = ground (arith, null_terminate-padded s n h.1)

replace_non_ascii_text : (s : Bytes) → IsText s → replace_non_ascii s ≡ s
unfolding replace_non_ascii
replace_non_ascii_text [] h = refl
replace_non_ascii_text (b ∷ s) h = ground (arith, replace_non_ascii_text s h.1)

pub encode_text : (s : Bytes) → IsText s → encode_ascii_string s ≡ ok s
unfolding encode_ascii_string
encode_text [] h = refl
encode_text (b ∷ s) h = ground (arith, encode_text s h.1)

pub decode_padded :
    (s : Bytes) (n : ℕ) → IsText s → decode_null_padded_ascii_string (s ++ replicate n 0) ≡ s
unfolding decode_null_padded_ascii_string
decode_padded s n h =
    ap replace_non_ascii (null_terminate-padded s n h) ∙ replace_non_ascii_text s h

-- A client ID of ASCII bytes other than null is written without an error, and is read back with
-- any padding.
pub read_creator_packet-write_creator_packet :
    (s : Bytes) (n : ℕ)
    → IsText s
    → (bs : Bytes) × (write_creator_packet s ≡ ok bs)
      × (read_creator_packet (bs ++ replicate n 0) ≡ s)
unfolding write_creator_packet read_creator_packet
read_creator_packet-write_creator_packet s n h = (s, encode_text s h, decode_padded s n h)

prepend-ok :
    (c : ℕ) (s bs : Bytes) (r : Result Error Bytes)
    → ((ts : Bytes) → r ≡ ok ts → (ts ≡ s) × All (λ b. b ≤ 0x7f) s)
    → (if ltb max_ascii c then err invalid_ascii_character else (r >>= λ ts. ok (c ∷ ts))) ≡ ok bs
    → (bs ≡ c ∷ s) × ((c ≤ 0x7f) × All (λ b. b ≤ 0x7f) s)
prepend-ok c s bs (err x) ih e = ground arith
prepend-ok c s bs (ok ts) ih e =
    let (kept, ascii) = ih ts refl in
    elim (Bool-cases (ltb max_ascii c)) [
      | inl t ↦ ground arith
      | inr t ↦ (ground arith, (ground arith, ascii))
    ]

-- What encode_ascii_string accepts is ASCII, and it is kept as it is.
pub encode_ascii_string-ok :
    (s bs : Bytes) → encode_ascii_string s ≡ ok bs → (bs ≡ s) × All (λ b. b ≤ 0x7f) s
unfolding encode_ascii_string
encode_ascii_string-ok [] bs e = (ground arith, tt)
encode_ascii_string-ok (c ∷ s) bs e =
    prepend-ok c s bs (encode_ascii_string s) (encode_ascii_string-ok s) e
