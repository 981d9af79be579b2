-- ===== src/Memfs/Refinement.antt =====
-- The file system refines a function from absolute paths to the data of the files that exist.
use gopar.Common.{
  ◌≡◌, ◌∙◌, ap, refl, if◌then◌else◌, true, Option, none, some, List, [], ◌∷◌, ◌++◌, lookup, insert,
  erase, lookup-insert_self, lookup-insert_ne, lookup-erase_self, lookup-erase_ne, Bool-cases,
  Option-cases, inl, inr,
}
use mathlib.Core.Path.{ap₂}
use gopar.Common.Bytes.{Bytes, same_bytes, same_bytes_refl, same_bytes→eq, Result, ok, err}
use gopar.Par2.Filename.{slash, is_abs, clean}
use gopar.Par2.Paths.{join_path}
use gopar.Memfs.{
  Error, not_exist, panicked, MemFs, to_abs_path, or_not_exist, read_file, write_file, remove_file,
  move_file,
}

-- What the callers see: the files by their absolute paths.
abbrev pub Files : Type 0
Files = Bytes → Option Bytes

abbrev pub update : Files → Bytes → Option Bytes → Files
update files path o q = if same_bytes q path then o else files q

unfoldable pub files_of : MemFs → Files
files_of fs path = lookup same_bytes path fs.file_data

-- The calls of a client, and what it sees of each.
pub data Call : Type 0 where
  read remove : Bytes → Call
  write move : Bytes → Bytes → Call

pub data Reply : Type 0 where
  done missing failed : Reply
  contents : Bytes → Reply

-- A call on the file system; where it fails, the file system is as before.
abbrev pub reply_read : MemFs → Result Error Bytes → Reply × MemFs
reply_read fs (ok data_bytes) = (contents data_bytes, fs)
reply_read fs (err not_exist) = (missing, fs)
reply_read fs (err panicked) = (failed, fs)

abbrev pub reply_remove : MemFs → Result Error (Bytes × MemFs) → Reply × MemFs
reply_remove fs (ok (data_bytes, fs')) = (contents data_bytes, fs')
reply_remove fs (err not_exist) = (missing, fs)
reply_remove fs (err panicked) = (failed, fs)

abbrev pub reply_change : MemFs → Result Error MemFs → Reply × MemFs
reply_change fs (ok fs') = (done, fs')
reply_change fs (err not_exist) = (missing, fs)
reply_change fs (err panicked) = (failed, fs)

abbrev pub call : MemFs → Call → Reply × MemFs
call fs (read path) = reply_read fs (read_file fs path)
call fs (remove path) = reply_remove fs (remove_file fs path)
call fs (write path data_bytes) = reply_change fs (write_file fs path data_bytes)
call fs (move old_path new_path) = reply_change fs (move_file fs old_path new_path)

abbrev pub calls : MemFs → List Call → List Reply × MemFs
calls fs [] = ([], fs)
calls fs (c ∷ cs) =
    let (reply, fs') = call fs c in let (replies, fs'') = calls fs' cs in (reply ∷ replies, fs'')

-- The absolute path that a path stands for.
abbrev pub absolute : Bytes → Bytes → Bytes
absolute working_dir path = if is_abs path then path else join_path working_dir path

-- The same calls on the function.
abbrev pub abstract_take : Files → Bytes → Option Bytes → Reply × Files
abstract_take files path none = (missing, files)
abstract_take files path (some data_bytes) = (contents data_bytes, update files path none)

abbrev pub abstract_move : Files → Bytes → Bytes → Option Bytes → Reply × Files
abstract_move files old_path new_path none = (missing, files)
abstract_move files old_path new_path (some data_bytes) =
    (done, update (update files old_path none) new_path (some data_bytes))

abbrev pub abstract_read : Files → Option Bytes → Reply × Files
abstract_read files none = (missing, files)
abstract_read files (some data_bytes) = (contents data_bytes, files)

abbrev pub abstract_call : Bytes → Files → Call → Reply × Files
abstract_call working_dir files (read path) =
    abstract_read files (files (absolute working_dir path))
abstract_call working_dir files (remove path) =
    abstract_take files (absolute working_dir path) (files (absolute working_dir path))
abstract_call working_dir files (write path data_bytes) =
    (done, update files (absolute working_dir path) (some data_bytes))
abstract_call working_dir files (move old_path new_path) =
    abstract_move files (absolute working_dir old_path) (absolute working_dir new_path)
      (files (absolute working_dir old_path))

abbrev pub abstract_calls : Bytes → Files → List Call → List Reply × Files
abstract_calls working_dir files [] = ([], files)
abstract_calls working_dir files (c ∷ cs) =
    let (reply, files') = abstract_call working_dir files c in
    let (replies, files'') = abstract_calls working_dir files' cs in (reply ∷ replies, files'')

is_abs-append : (dir rest : Bytes) → is_abs dir ≡ true → is_abs (dir ++ rest) ≡ true
unfolding is_abs
is_abs-append [] rest h = cc
is_abs-append (c ∷ cs) rest h = h

is_abs-clean : (path : Bytes) → is_abs path ≡ true → is_abs (clean path) ≡ true
unfolding clean
is_abs-clean path h = rw h (unfold is_abs in refl)

join_path-absolute : (dir path : Bytes) → is_abs dir ≡ true → is_abs (join_path dir path) ≡ true
unfolding join_path
join_path-absolute dir [] h = is_abs-clean dir h
join_path-absolute dir (c ∷ cs) h = is_abs-clean _ (is_abs-append dir (slash ∷ (c ∷ cs)) h)

absolute-is_abs : (dir path : Bytes) → is_abs dir ≡ true → is_abs (absolute dir path) ≡ true
absolute-is_abs dir path h = elim (Bool-cases (is_abs path)) [
  | inl t ↦ rw t t
  | inr t ↦ rw t (join_path-absolute dir path h)
]

pub to_abs_path_lem :
    (dir path : Bytes) → is_abs dir ≡ true → to_abs_path dir path ≡ ok (absolute dir path)
unfolding to_abs_path
to_abs_path_lem dir path h = elim (Bool-cases (is_abs path)) [
  | inl t ↦ rw (h, t) refl
  | inr t ↦ rw (h, t) refl
]

to_abs_path-absolute :
    (dir path : Bytes)
    → is_abs dir ≡ true
    → to_abs_path dir (absolute dir path) ≡ ok (absolute dir path)
unfolding to_abs_path
to_abs_path-absolute dir path h = rw (h, absolute-is_abs dir path h) refl

insert-update :
    (path data_bytes : Bytes) (m : List (Bytes × Bytes)) (q : Bytes)
    → lookup same_bytes q (insert same_bytes path data_bytes m)
      ≡ update (λ p. lookup same_bytes p m) path (some data_bytes) q
insert-update path data_bytes m q = elim (Bool-cases (same_bytes q path)) [
  | inl t ↦ rw t (
      ap (λ p. lookup same_bytes p (insert same_bytes path data_bytes m)) (same_bytes→eq q path t)
      ∙ lookup-insert_self same_bytes same_bytes_refl same_bytes→eq path data_bytes m)
  | inr t ↦ rw t (lookup-insert_ne same_bytes same_bytes_refl same_bytes→eq path q data_bytes m t)
]

erase-update :
    (path : Bytes) (m : List (Bytes × Bytes)) (q : Bytes)
    → lookup same_bytes q (erase same_bytes path m)
      ≡ update (λ p. lookup same_bytes p m) path none q
erase-update path m q = elim (Bool-cases (same_bytes q path)) [
  | inl t ↦ rw t (
      ap (λ p. lookup same_bytes p (erase same_bytes path m)) (same_bytes→eq q path t)
      ∙ lookup-erase_self same_bytes path m)
  | inr t ↦ rw t (lookup-erase_ne same_bytes same_bytes_refl same_bytes→eq path q m t)
]

-- The four methods by what they do to the function.
module _ (fs : MemFs) (rooted : is_abs fs.working_dir ≡ true) where
  abbrev dir : Bytes
  dir = fs.working_dir

  read_file_lem :
      (path : Bytes) → read_file fs path ≡ or_not_exist (files_of fs (absolute dir path))
  unfolding read_file files_of
  read_file_lem path = rw (to_abs_path_lem dir path rooted) refl

  abbrev after_write : Bytes → Bytes → MemFs
  after_write path data_bytes = record fs {
    file_data = insert same_bytes (absolute dir path) data_bytes fs.file_data;
  }

  write_file_lem :
      (path data_bytes : Bytes) → write_file fs path data_bytes ≡ ok (after_write path data_bytes)
  unfolding write_file
  write_file_lem path data_bytes = rw (to_abs_path_lem dir path rooted) refl

  abbrev after_remove : Bytes → MemFs
  after_remove path = record fs { file_data = erase same_bytes (absolute dir path) fs.file_data }

  remove_file-missing :
      (path : Bytes) → files_of fs (absolute dir path) ≡ none → remove_file fs path ≡ err not_exist
  unfolding remove_file read_file files_of
  remove_file-missing path e =
      rw (to_abs_path_lem dir path rooted, to_abs_path-absolute dir path rooted, e) refl

  remove_file-found :
      (path data_bytes : Bytes)
      → files_of fs (absolute dir path) ≡ some data_bytes
      → remove_file fs path ≡ ok (data_bytes, after_remove path)
  unfolding remove_file read_file files_of
  remove_file-found path data_bytes e =
      rw (to_abs_path_lem dir path rooted, to_abs_path-absolute dir path rooted, e) refl

-- A reply and the file system left are those of the function.
record IsRefined (fs : MemFs) (r : Reply × MemFs) (a : Reply × Files) : Type 0 where
  same_reply : r.0 ≡ a.0
  same_files : (q : Bytes) → files_of r.1 q ≡ a.1 q
  same_dir : r.1.working_dir ≡ fs.working_dir

call-IsRefined :
    (fs : MemFs) (c : Call)
    → is_abs fs.working_dir ≡ true
    → IsRefined fs (call fs c) (abstract_call fs.working_dir (files_of fs) c)
unfolding files_of move_file
call-IsRefined fs (read path) h = elim (Option-cases (files_of fs (absolute fs.working_dir path))) [
  | inl e ↦
      rw (read_file_lem fs h path, e)
        (record { same_reply = refl; same_files = λ q. refl; same_dir = refl })
  | inr (d, e) ↦
      rw (read_file_lem fs h path, e)
        (record { same_reply = refl; same_files = λ q. refl; same_dir = refl })
]
call-IsRefined fs (write path data_bytes) h = rw (write_file_lem fs h path data_bytes) (record {
  same_reply = refl;
  same_files = insert-update (absolute fs.working_dir path) data_bytes fs.file_data;
  same_dir = refl;
})
call-IsRefined fs (remove path) h =
    elim (Option-cases (files_of fs (absolute fs.working_dir path))) [
      | inl e ↦
          rw (remove_file-missing fs h path e, e)
            (record { same_reply = refl; same_files = λ q. refl; same_dir = refl })
      | inr (d, e) ↦
          rw (remove_file-found fs h path d e, e)
            (record {
              same_reply = refl;
              same_files = erase-update (absolute fs.working_dir path) fs.file_data;
              same_dir = refl;
            })
    ]
call-IsRefined fs (move old_path new_path) h =
    elim (Option-cases (files_of fs (absolute fs.working_dir old_path))) [
      | inl e ↦
          rw (remove_file-missing fs h old_path e, e)
            (record { same_reply = refl; same_files = λ q. refl; same_dir = refl })
      | inr (d, e) ↦
          rw
            (
              remove_file-found fs h old_path d e,
              e,
              write_file_lem (after_remove fs h old_path) h new_path d,
            )
            (record {
              same_reply = refl;
              same_files = λ q.
                  insert-update (absolute fs.working_dir new_path) d
                    (erase same_bytes (absolute fs.working_dir old_path) fs.file_data) q
                  ∙ ap (λ o. if same_bytes q (absolute fs.working_dir new_path) then some d else o)
                      (erase-update (absolute fs.working_dir old_path) fs.file_data q);
              same_dir = refl;
            })
    ]

-- With an absolute working directory, any sequence of ReadFile, WriteFile, RemoveFile and MoveFile
-- gives the replies that the function from absolute paths to data gives, a missing file included,
-- and leaves a file system that stands for the function that is left.
pub calls-refine :
    (fs : MemFs) (cs : List Call)
    → is_abs fs.working_dir ≡ true
    → ((calls fs cs).0 ≡ (abstract_calls fs.working_dir (files_of fs) cs).0)
      × (files_of (calls fs cs).1 ≡ (abstract_calls fs.working_dir (files_of fs) cs).1)
calls-refine fs [] h = (refl, refl)
calls-refine fs (c ∷ cs) h =
    let r = call fs c in
    let a = abstract_call fs.working_dir (files_of fs) c in
    let step = call-IsRefined fs c h in
    let same : files_of r.1 ≡ a.1 = λ i q. step.same_files q i in
    let (replies, files) = calls-refine r.1 cs (ap is_abs step.same_dir ∙ h) in
    let next : abstract_calls r.1.working_dir (files_of r.1) cs
        ≡ abstract_calls fs.working_dir a.1 cs =
      ap (λ d. abstract_calls d (files_of r.1) cs) step.same_dir
      ∙ ap (λ f. abstract_calls fs.working_dir f cs) same in
    (ap₂ ◌∷◌ step.same_reply (replies ∙ ap (λ t. t.0) next), files ∙ ap (λ t. t.1) next)
