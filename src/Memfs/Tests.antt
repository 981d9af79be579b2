-- ===== src/Memfs/Tests.antt =====
-- The theorems at a file system with one file.
use gopar.Common.{◌≡◌, ◌↔◌, refl, true, List, [], ◌∷◌, Mem}
use gopar.Common.Bytes.{Bytes, ok}
use gopar.Par2.Filename.{is_abs}
use gopar.Memfs.{MemFs, to_abs_path, paths, find_with_prefix_and_suffix}
use gopar.Memfs.Refinement.{
  Call, read, remove, write, move, calls, abstract_calls, files_of, calls-refine,
}
use gopar.Memfs.Search.{IsMatch, find_with_prefix_and_suffix-Mem}

abbrev root : Bytes
root = b'/' ∷ []

abbrev rooted_name : Bytes
rooted_name = b'/' ∷ b'a' ∷ []

abbrev one_file : MemFs
one_file = record { working_dir = root; file_data = (rooted_name, 1 ∷ 2 ∷ []) ∷ [] }

root-is_abs : is_abs root ≡ true
unfolding is_abs
root-is_abs = refl

abbrev some_calls : List Call
some_calls =
    read (b'a' ∷ [])
    ∷ (write (b'b' ∷ []) (3 ∷ []) ∷ (move rooted_name (b'c' ∷ []) ∷ (remove (b'a' ∷ []) ∷ [])))

calls-refine_example :
    ((calls one_file some_calls).0 ≡ (abstract_calls root (files_of one_file) some_calls).0)
    × (files_of (calls one_file some_calls).1
        ≡ (abstract_calls root (files_of one_file) some_calls).1)
calls-refine_example = calls-refine one_file some_calls root-is_abs

root_path : to_abs_path root root ≡ ok root
unfolding to_abs_path is_abs
root_path = refl

find_with_prefix_and_suffix-Mem_example :
    (found : List Bytes) × (find_with_prefix_and_suffix one_file root (b'a' ∷ []) ≡ ok found)
    × ((filename : Bytes)
        → Mem filename found ↔ (Mem filename (paths one_file) × IsMatch root (b'a' ∷ []) filename))
find_with_prefix_and_suffix-Mem_example =
    find_with_prefix_and_suffix-Mem one_file root (b'a' ∷ []) root root_path
