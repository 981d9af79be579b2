-- ===== src/Par2/Filename.antt =====
-- checkFilename of par2/file_description_packet.go. path.IsAbs and path.Clean are those of Go's
-- standard library, over the bytes of a path.
pub mod Inside
use gopar.Common.{
  ℕ, suc, zero, ◌≡◌, ◌≢◌, refl, ◌==◌, if◌then◌else◌, Bool, true, false, not, List, [], ◌∷◌, ◌++◌,
  All, arith,
}
use gopar.Common.Bytes.{Bytes, same_bytes, Result, ok, err}
use gopar.Par2.Error.{Error, absolute_path, outside_directory}

abbrev pub slash : ℕ
slash = b'/'

abbrev pub dot : ℕ
dot = b'.'

unfoldable pub is_abs : Bytes → Bool
is_abs [] = false
is_abs (c ∷ cs) = c == slash

-- The parts of a path between its slashes; `current` is the part that is being read.
unfoldable pub split_path : Bytes → Bytes → List Bytes
split_path current [] = current ∷ []
split_path current (c ∷ cs) =
    let here = current ∷ split_path [] cs in
    let on = split_path (current ++ (c ∷ [])) cs in if c == slash then here else on

abbrev pub dot_dot : Bytes
dot_dot = dot ∷ dot ∷ []

-- The parts that path.Clean keeps, the last one first: an empty part and `.` go, and `..` takes the
-- part before it with it. At the root nothing is above; elsewhere `..` stays.
unfoldable pub push_part : Bool → List Bytes → Bytes → List Bytes
push_part rooted [] part =
    if same_bytes part []
    then []
    else if same_bytes part (dot ∷ [])
    then []
    else if same_bytes part dot_dot
    then (if rooted then [] else part ∷ [])
    else part ∷ []
push_part rooted (top ∷ stack) part =
    if same_bytes part []
    then top ∷ stack
    else if same_bytes part (dot ∷ [])
    then top ∷ stack
    else if same_bytes part dot_dot
    then (if same_bytes top dot_dot then part ∷ (top ∷ stack) else stack)
    else part ∷ (top ∷ stack)

unfoldable pub push_parts : Bool → List Bytes → List Bytes → List Bytes
push_parts rooted stack [] = stack
push_parts rooted stack (part ∷ parts) = push_parts rooted (push_part rooted stack part) parts

-- The parts of the cleaned path, in order.
unfoldable pub join_reversed : List Bytes → Bytes → Bytes
join_reversed [] tail = tail
join_reversed (part ∷ []) tail = part ++ tail
join_reversed (part ∷ (next ∷ stack)) tail = join_reversed (next ∷ stack) (slash ∷ (part ++ tail))

-- The path of a directory that has no parts.
abbrev pub or_dot : Bytes → Bytes
or_dot [] = dot ∷ []
or_dot (c ∷ cs) = c ∷ cs

unfoldable pub clean : Bytes → Bytes
clean path =
    let parts = split_path [] path in
    if is_abs path
    then slash ∷ join_reversed (push_parts true [] parts) []
    else or_dot (join_reversed (push_parts false [] parts) [])

-- Whether the first byte of a path is a dot.
abbrev pub starts_with_dot : Bytes → Bool
starts_with_dot [] = false
starts_with_dot (c ∷ cs) = c == dot

unfoldable pub check_filename : Bytes → Result Error (Unit {0})
check_filename filename =
    if is_abs filename
    then err absolute_path
    else if starts_with_dot (clean filename)
    then err outside_directory
    else ok tt
