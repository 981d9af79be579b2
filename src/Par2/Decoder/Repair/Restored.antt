-- ===== src/Par2/Decoder/Repair/Restored.antt =====
-- Repair writes a file only with its own data, and where it returns no error it wrote each file that
-- was not whole.
use gopar.Common.{
  ℕ, ◌≡◌, ◌≢◌, ◌≤◌, ◌⊎◌, ◌∙◌, sym, ap, refl, leb, if◌then◌else◌, Bool, true, false, Option, none,
  some, List, [], ◌∷◌, length, take, drop, Mem, arith, inl, inr, length-take, Bool-cases,
  Option-cases,
}
use mathlib.Core.Path.{subst}
use gopar.Common.Bytes.{
  Bytes, same_bytes, same_bytes→eq, ok, guard-then, Result-cases, ok-injective,
}
use gopar.Gf2p16.T.{T, Tables}
use gopar.Gf2p16.Algebra.{Field}
use gopar.Par2.Error.{Error, panic, sixteen_k_hash_mismatch, data_hash_mismatch}
use gopar.Par2.FileIo.{FileIo}
use gopar.Par2.DataFile.{sixteen_k_hash}
use gopar.Par2.Decoder.{
  InputFileInfo, FileIntegrityInfo, LocationMap, Decoder, file_ok, get_file_path,
}
use gopar.Par2.Decoder.Repair.{
  joined_data, repaired_data, new_shard_infos, Repaired, write_repaired, write_all,
  fill_reconstructed, reconstructed_shards, repair,
}

pub some-ne-none : (e : Error) → ◌≢◌ {A = Option Error} (some e) none
some-ne-none e h = absurd cc

module _ (md5 : Bytes → Bytes) (io : FileIo) (d : Decoder) where
  open io use {Disk, write_file}

  -- The data that a description is of.
  pub record IsDataOf (info : InputFileInfo) (data_bytes : Bytes) : Type 0 where
    pub has_length : length data_bytes ≡ info.byte_count
    pub has_hash : md5 data_bytes ≡ info.hash
    pub has_sixteen_k_hash : sixteen_k_hash md5 data_bytes ≡ info.sixteen_k_hash

  -- The disk after files of the set were written, each with its own data, to the paths listed; the
  -- write after them may have failed, and left what a write of such data that fails leaves.
  pub data Restored (infos : List InputFileInfo) : Disk → List Bytes → Disk → Type 0 where
    nothing : (disk : Disk) → Restored infos disk [] disk
    failed :
        (disk disk' : Disk) (e : Error) (info : InputFileInfo) (data_bytes : Bytes)
        → Mem info infos
        → IsDataOf info data_bytes
        → write_file disk (get_file_path d info) data_bytes ≡ (some e, disk')
        → Restored infos disk [] disk'
    written :
        (disk disk' disk'' : Disk) (paths : List Bytes) (info : InputFileInfo) (data_bytes : Bytes)
        → Mem info infos
        → IsDataOf info data_bytes
        → write_file disk (get_file_path d info) data_bytes ≡ (none, disk')
        → Restored infos disk' paths disk''
        → Restored infos disk (get_file_path d info ∷ paths) disk''

  Restored-cons :
      (info : InputFileInfo) (infos : List InputFileInfo) {disk disk' : Disk} {paths : List Bytes}
      → Restored infos disk paths disk'
      → Restored (info ∷ infos) disk paths disk'
  Restored-cons info infos (nothing disk) = nothing disk
  Restored-cons info infos (failed disk disk' e i data_bytes member good w) =
      failed disk disk' e i data_bytes (inr member) good w
  Restored-cons info infos (written disk mid last ps i data_bytes member good w rest) =
      written disk mid last ps i data_bytes (inr member) good w (Restored-cons info infos rest)

  repaired_data-IsDataOf :
      (info : InputFileInfo) (integrity : FileIntegrityInfo) (data_bytes : Bytes)
      → repaired_data md5 io d info integrity ≡ ok data_bytes
      → IsDataOf info data_bytes
  unfolding repaired_data
  repaired_data-IsDataOf info integrity data_bytes e =
      let buf = joined_data integrity.shard_infos in
      let data' = take info.byte_count buf in
      let (g1, e1) = guard-then (leb info.byte_count (length buf)) panic _ data_bytes e in
      let (g2, e2) =
        guard-then (same_bytes (sixteen_k_hash md5 data') info.sixteen_k_hash)
          sixteen_k_hash_mismatch _ data_bytes e1 in
      let (g3, e3) =
        guard-then (same_bytes (md5 data') info.hash) data_hash_mismatch _ data_bytes e2 in
      let long : info.byte_count ≤ length buf = ground arith in
      subst (λ (bs : Bytes). IsDataOf info bs) (ok-injective data' data_bytes e3)
        (record {
          has_length = omega (arith, length-take info.byte_count buf);
          has_hash = same_bytes→eq _ _ g3;
          has_sixteen_k_hash = same_bytes→eq _ _ g2;
        })

  -- A file that is not whole is not written, or it is written with its own data.
  write_repaired-cases :
      (info : InputFileInfo) (integrity : FileIntegrityInfo) (disk : Disk)
      → ((e : Error) × (write_repaired md5 io d info integrity disk ≡ (some e, disk)))
        ⊎ ((data_bytes : Bytes) × IsDataOf info data_bytes
            × (write_repaired md5 io d info integrity disk
                ≡ write_file disk (get_file_path d info) data_bytes))
  unfolding write_repaired
  write_repaired-cases info integrity disk =
      elim (Result-cases (repaired_data md5 io d info integrity)) [
        | inl (e, stopped) ↦ inl (e, rw (stopped, write_repaired) refl)
        | inr (data_bytes, done) ↦ inr (
          data_bytes,
          repaired_data-IsDataOf info integrity data_bytes done,
          rw (done, write_repaired) refl,
        )
      ]

  write_all-Restored :
      (infos : List InputFileInfo) (files : List (Bool × FileIntegrityInfo)) (disk : Disk)
      → let r = write_all md5 io d infos files disk in Restored infos disk r.repaired_paths r.disk
  unfolding write_all
  write_all-Restored [] files disk = nothing disk
  write_all-Restored (info ∷ infos) [] disk = nothing disk
  write_all-Restored (info ∷ infos) ((true, integrity) ∷ files) disk =
      Restored-cons info infos (write_all-Restored infos files disk)
  write_all-Restored (info ∷ infos) ((false, integrity) ∷ files) disk =
      let r = write_repaired md5 io d info integrity disk in
      elim (write_repaired-cases info integrity disk) [
        | inl (e, stopped) ↦
            let error : r.0 ≡ some e = ap (λ (x : Option Error × Disk). x.0) stopped in
            let same : r.1 ≡ disk = ap (λ (x : Option Error × Disk). x.1) stopped in
            rw (error, same, write_all) (nothing disk)
        | inr (data_bytes, good, w) ↦ elim (Option-cases r.0) [
          | inl fine ↦
              rw (fine, write_all)
                (written disk r.1 _ _ info data_bytes (inl refl) good
                  (sym w ∙ ap (λ (o : Option Error). (o, r.1)) fine)
                  (Restored-cons info infos (write_all-Restored infos files r.1)))
          | inr (e, stopped) ↦
              rw (stopped, write_all)
                (failed disk r.1 e info data_bytes (inl refl) good
                  (sym w ∙ ap (λ (o : Option Error). (o, r.1)) stopped))
        ]
      ]

  -- The paths of the files that are not whole.
  abbrev pub broken_paths : ℕ → List InputFileInfo → List FileIntegrityInfo → List Bytes
  broken_paths slice_byte_count [] files = []
  broken_paths slice_byte_count (info ∷ infos) [] = []
  broken_paths slice_byte_count (info ∷ infos) (integrity ∷ files) =
      let rest = broken_paths slice_byte_count infos files in
      if file_ok slice_byte_count integrity then rest else get_file_path d info ∷ rest

  write_all-broken_paths :
      (m : LocationMap) (slice_byte_count : ℕ) (infos : List InputFileInfo)
      (files : List FileIntegrityInfo) (shards : List Bytes) (disk : Disk)
      → let r =
          write_all md5 io d infos (fill_reconstructed md5 m slice_byte_count files shards) disk in
        r.error ≡ none → r.repaired_paths ≡ broken_paths slice_byte_count infos files
  unfolding write_all fill_reconstructed
  write_all-broken_paths m size [] files shards disk h = refl
  write_all-broken_paths m size (info ∷ infos) [] shards disk h = absurd cc
  write_all-broken_paths m size (info ∷ infos) (integrity ∷ files) shards disk h =
      let count = length integrity.shard_infos in
      let new : FileIntegrityInfo = record integrity {
        shard_infos = new_shard_infos md5 m (take count shards);
      } in
      let later = drop count shards in
      elim (Bool-cases (file_ok size integrity)) [
        | inl whole ↦
            rw (whole, write_all)
              (write_all-broken_paths m size infos files later disk (rw (whole, write_all) at h))
        | inr broken ↦
            let r = write_repaired md5 io d info new disk in
            elim (Option-cases r.0) [
              | inl fine ↦
                  rw (broken, fine, write_all)
                    (ap (λ ps. get_file_path d info ∷ ps)
                      (write_all-broken_paths m size infos files later r.1
                        (rw (broken, fine, write_all) at h)))
              | inr (e, stopped) ↦ absurd (some-ne-none e (rw (broken, stopped, write_all) at h))
            ]
      ]

module _ (md5 : Bytes → Bytes) (K : Field) (element : T → Field.F K) (value : Field.F K → T)
    (schedule : ℕ → List ℕ) (t : Tables) (io : FileIo) (d : Decoder) (check_parity : Bool)
    (disk : io.Disk) where
  -- Repair, whatever it returns, has asked for writes of files of the recovery set only, each at its
  -- own path and with data that has the length and both hashes of its description; the paths that
  -- it returns are those of the writes that succeeded, in order, and the disk that it leaves is
  -- what these writes leave and, where the last of them failed, what that one leaves.
  pub repair-Restored :
      let r = repair md5 K element value schedule t io d check_parity disk in
      Restored md5 io d d.recovery_set disk r.repaired_paths r.disk
  unfolding repair
  repair-Restored =
      elim (Result-cases (reconstructed_shards K element value schedule t d check_parity)) [
        | inl (e, stopped) ↦ rw (stopped, repair) (nothing disk)
        | inr (shards, done) ↦
            rw (done, repair)
              (write_all-Restored md5 io d d.recovery_set
                (fill_reconstructed md5 d.checksum_to_location d.slice_byte_count
                  d.file_integrity_infos shards)
                disk)
      ]

  -- Where Repair returns no error, it reconstructed the shards, and the paths that it returns are
  -- those of all the files that were not whole when they were loaded.
  pub repair-broken_paths :
      (repair md5 K element value schedule t io d check_parity disk).error ≡ none
      → (shards : List Bytes) × (reconstructed_shards K element value schedule t d check_parity
          ≡ ok shards)
        × ((repair md5 K element value schedule t io d check_parity disk).repaired_paths
            ≡ broken_paths md5 io d d.slice_byte_count d.recovery_set d.file_integrity_infos)
  unfolding repair
  repair-broken_paths h =
      elim (Result-cases (reconstructed_shards K element value schedule t d check_parity)) [
        | inl (e, stopped) ↦
            let all : repair md5 K element value schedule t io d check_parity disk
                ≡ record { repaired_paths = []; error = some e; disk = disk } =
              rw (stopped, repair) refl in
            absurd (some-ne-none e (sym (ap (λ (r : Repaired io.Disk). r.error) all) ∙ h))
        | inr (shards, done) ↦
            let files =
              fill_reconstructed md5 d.checksum_to_location d.slice_byte_count
                d.file_integrity_infos shards in
            let all : repair md5 K element value schedule t io d check_parity disk
                ≡ write_all md5 io d d.recovery_set files disk =
              rw (done, repair) refl in
            (
              shards,
              done,
              ap (λ (r : Repaired io.Disk). r.repaired_paths) all
                  ∙ write_all-broken_paths md5 io d d.checksum_to_location d.slice_byte_count
                      d.recovery_set d.file_integrity_infos shards disk
                      (sym (ap (λ (r : Repaired io.Disk). r.error) all) ∙ h),
            )
      ]
