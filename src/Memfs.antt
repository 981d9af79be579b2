-- ===== src/Memfs.antt =====
-- memfs/memfs.go: a file system in memory with a working directory. A path is its bytes, and
-- filepath.IsAbs, Clean and Join are those of Unix. A method that changes the map returns the file
-- system that it leaves.
pub mod Refinement
pub mod Search
pub mod Tests
use gopar.Common.{
  ℕ, ◌+◌, ◌-◌, ◌==◌, leb, ◌&&◌, not, if◌then◌else◌, Bool, Option, none, some, List, [], ◌∷◌, ◌++◌,
  length, take, drop, lookup, insert, erase,
}
use gopar.Common.Bytes.{Bytes, same_bytes, Result, ok, err, ◌>>=◌}
use gopar.Par2.Filename.{slash, is_abs}
use gopar.Par2.Paths.{join_path}

-- os.ErrNotExist, and the panic of a working directory that is not absolute.
pub data Error : Type 0 where
  not_exist panicked : Error

pub record MemFs : Type 0 where
  pub working_dir : Bytes
  pub file_data : List (Bytes × Bytes)

-- RootDir, whose volume name is that of the directory that the process runs in.
unfoldable pub root_dir : Bytes → Bytes
root_dir volume_name = volume_name ++ (slash ∷ [])

unfoldable pub to_abs_path : Bytes → Bytes → Result Error Bytes
to_abs_path working_dir path =
    if not (is_abs working_dir)
    then err panicked
    else if is_abs path
    then ok path
    else ok (join_path working_dir path)

unfoldable pub file_data_to_abs_paths :
    Bytes → List (Bytes × Bytes) → List (Bytes × Bytes) → Result Error (List (Bytes × Bytes))
file_data_to_abs_paths working_dir new_file_data [] = ok new_file_data
file_data_to_abs_paths working_dir new_file_data ((path, data_bytes) ∷ file_data) = do
  abs_path ← to_abs_path working_dir path
  file_data_to_abs_paths working_dir (insert same_bytes abs_path data_bytes new_file_data) file_data

unfoldable pub make_mem_fs : Bytes → List (Bytes × Bytes) → Result Error MemFs
make_mem_fs working_dir file_data = do
  new_file_data ← file_data_to_abs_paths working_dir [] file_data
  ok (record { working_dir = working_dir; file_data = new_file_data })

abbrev pub or_not_exist : Option Bytes → Result Error Bytes
or_not_exist none = err not_exist
or_not_exist (some data_bytes) = ok data_bytes

unfoldable pub read_file : MemFs → Bytes → Result Error Bytes
read_file fs path = do
  abs_path ← to_abs_path fs.working_dir path
  or_not_exist (lookup same_bytes abs_path fs.file_data)

unfoldable pub paths_of : List (Bytes × Bytes) → List Bytes
paths_of [] = []
paths_of ((path, data_bytes) ∷ file_data) = path ∷ paths_of file_data

unfoldable pub paths : MemFs → List Bytes
paths fs = paths_of fs.file_data

unfoldable pub file_count : MemFs → ℕ
file_count fs = length fs.file_data

-- strings.HasPrefix and strings.HasSuffix.
unfoldable pub has_prefix : Bytes → Bytes → Bool
has_prefix s prefix = leb (length prefix) (length s) && same_bytes (take (length prefix) s) prefix

unfoldable pub has_suffix : Bytes → Bytes → Bool
has_suffix s suffix =
    leb (length suffix) (length s) && same_bytes (drop (length s - length suffix) s) suffix

unfoldable pub matches : Bytes → Bytes → Bytes → Bool
matches abs_prefix suffix filename =
    leb (length abs_prefix + length suffix) (length filename)
    && (has_prefix filename abs_prefix && has_suffix filename suffix)

unfoldable pub matching : Bytes → Bytes → List Bytes → List Bytes
matching abs_prefix suffix [] = []
matching abs_prefix suffix (filename ∷ filenames) =
    let rest = matching abs_prefix suffix filenames in
    if matches abs_prefix suffix filename then filename ∷ rest else rest

unfoldable pub find_with_prefix_and_suffix : MemFs → Bytes → Bytes → Result Error (List Bytes)
find_with_prefix_and_suffix fs prefix suffix = do
  abs_prefix ← to_abs_path fs.working_dir prefix
  ok (matching abs_prefix suffix (paths fs))

unfoldable pub write_file : MemFs → Bytes → Bytes → Result Error MemFs
write_file fs path data_bytes = do
  abs_path ← to_abs_path fs.working_dir path
  ok (record fs { file_data = insert same_bytes abs_path data_bytes fs.file_data })

unfoldable pub remove_file : MemFs → Bytes → Result Error (Bytes × MemFs)
remove_file fs path = do
  abs_path ← to_abs_path fs.working_dir path
  data_bytes ← read_file fs abs_path
  ok (data_bytes, record fs { file_data = erase same_bytes abs_path fs.file_data })

unfoldable pub move_file : MemFs → Bytes → Bytes → Result Error MemFs
move_file fs old_path new_path = do
  (data_bytes, fs') ← remove_file fs old_path
  write_file fs' new_path data_bytes
