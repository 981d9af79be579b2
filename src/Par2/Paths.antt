-- ===== src/Par2/Paths.antt =====
-- The functions of path and path/filepath that par2/create.go, par2/encoder.go and par2/decoder.go
-- call, those of Unix, over the bytes of a path.
use gopar.Common.{
  ℕ, ◌-◌, ◌==◌, ◌||◌, ◌&&◌, not, if◌then◌else◌, Bool, false, Option, none, some, [], ◌∷◌, ◌++◌,
  length, take, true, List, zero, suc, ◌+◌, ◌/◌, ◌%◌, ltb,
}
use gopar.Common.Bytes.{Bytes, same_bytes}
use gopar.Par2.Filename.{
  slash, dot, dot_dot, is_abs, clean, split_path, push_parts, join_reversed, or_dot,
}

unfoldable pub has_slash : Bytes → Bool
has_slash [] = false
has_slash (c ∷ cs) = c == slash || has_slash cs

-- The last dot behind the last slash, with what follows it.
unfoldable pub find_ext : Bytes → Option Bytes
find_ext [] = none
find_ext (c ∷ cs) = elim (find_ext cs) [
  | some ext ↦ some ext
  | none ↦ if c == dot && not (has_slash cs) then some (c ∷ cs) else none
]

abbrev pub or_empty : Option Bytes → Bytes
or_empty none = []
or_empty (some bs) = bs

-- path.Ext, and the path without it.
unfoldable pub path_ext : Bytes → Bytes
path_ext path = or_empty (find_ext path)

unfoldable pub path_base : Bytes → Bytes
path_base path = take (length path - length (path_ext path)) path

-- The path up to its last slash, and filepath.Dir.
unfoldable pub up_to_slash : Bytes → Bytes
up_to_slash [] = []
up_to_slash (c ∷ cs) = if has_slash (c ∷ cs) then c ∷ up_to_slash cs else []

unfoldable pub path_dir : Bytes → Bytes
path_dir path = clean (up_to_slash path)

-- filepath.Join of a path that is not empty and another one.
unfoldable pub join_path : Bytes → Bytes → Bytes
join_path dir [] = clean dir
join_path dir (c ∷ cs) = clean (dir ++ (slash ∷ (c ∷ cs)))

-- filepath.Abs, with the working directory of the process.
unfoldable pub abs_path : Bytes → Bytes → Bytes
abs_path working_dir path = if is_abs path then clean path else join_path working_dir path

unfoldable pub reverse_onto : List Bytes → List Bytes → List Bytes
reverse_onto [] parts = parts
reverse_onto (part ∷ rest) parts = reverse_onto rest (part ∷ parts)

-- The parts of a cleaned absolute path, in order.
unfoldable pub clean_parts : Bytes → List Bytes
clean_parts path = reverse_onto (push_parts true [] (split_path [] path)) []

-- A way from one directory to another one, the last part first: up for each part that is left of
-- the base, and down the parts of the target.
unfoldable pub way_up : List Bytes → List Bytes → List Bytes
way_up [] way = way
way_up (part ∷ base) way = way_up base (dot_dot ∷ way)

unfoldable pub rel_parts : List Bytes → List Bytes → List Bytes
rel_parts [] target = reverse_onto target []
rel_parts (b ∷ base) [] = way_up (b ∷ base) []
rel_parts (b ∷ base) (t ∷ target) =
    if same_bytes b t
    then rel_parts base target
    else reverse_onto (t ∷ target) (way_up (b ∷ base) [])

-- filepath.Rel of two absolute paths, which has no error.
unfoldable pub rel_path : Bytes → Bytes → Bytes
rel_path base target = or_dot (join_reversed (rel_parts (clean_parts base) (clean_parts target)) [])

-- A number in decimal digits, of which there are at most `fuel`, in front of others.
unfoldable pub decimal_onto : ℕ → ℕ → Bytes → Bytes
decimal_onto zero n digits = digits
decimal_onto (suc fuel) n digits =
    let digits' = (b'0' + n % 10) ∷ digits in
    if ltb n 10 then digits' else decimal_onto fuel (n / 10) digits'

-- %02d of fmt.Sprintf.
unfoldable pub two_digits : ℕ → Bytes
two_digits n = if ltb n 10 then b'0' ∷ decimal_onto 1 n [] else decimal_onto (suc n) n []
