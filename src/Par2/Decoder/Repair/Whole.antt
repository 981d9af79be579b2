-- ===== src/Par2/Decoder/Repair/Whole.antt =====
-- Repair of a set whose files are all whole.
use gopar.Common.{
  ℕ, ◌≤◌, ◌≡◌, ◌↔◌, ◌∙◌, sym, ap, refl, Bool, true, none, some, List, [], ◌∷◌, length, drop, All,
  arith, inl, inr,
}
use gopar.Common.Bytes.{Bytes, ok, Result-cases}
use gopar.Gf2p16.T.{T, Tables}
use gopar.Gf2p16.Algebra.{Field}
use gopar.Par2.FileIo.{FileIo}
use gopar.Par2.Decoder.{InputFileInfo, FileIntegrityInfo, LocationMap, Decoder, file_ok}
use gopar.Par2.Decoder.Repair.Restored.{some-ne-none}
use gopar.Par2.Decoder.Repair.{
  Repaired, write_all, fill_reconstructed, reconstructed_shards, repair,
}

-- The files are whole as they were loaded.
abbrev pub AreWhole : ℕ → List FileIntegrityInfo → Type 0
AreWhole slice_byte_count infos = All (λ info. file_ok slice_byte_count info ≡ true) infos

module _ (md5 : Bytes → Bytes) (io : FileIo) (d : Decoder) (m : LocationMap)
    (slice_byte_count : ℕ) where
  write_all-AreWhole :
      (recovery_set : List InputFileInfo) (infos : List FileIntegrityInfo) (shards : List Bytes)
      (disk : io.Disk)
      → AreWhole slice_byte_count infos
      → length recovery_set ≤ length infos
      → write_all md5 io d recovery_set
          (fill_reconstructed md5 m slice_byte_count infos shards)
          disk
        ≡ record { repaired_paths = []; error = none; disk = disk }
  unfolding write_all fill_reconstructed
  write_all-AreWhole [] infos shards disk whole few = refl
  write_all-AreWhole (r ∷ rs) [] shards disk whole few = absurd (omega arith)
  write_all-AreWhole (r ∷ rs) (info ∷ infos) shards disk (whole, others) few =
      rw (whole, write_all)
        (write_all-AreWhole rs infos (drop (length info.shard_infos) shards) disk others
          (omega arith))

-- Where all files of the recovery set are whole, Repair writes nothing: it returns no paths and
-- leaves the disk as it was, and it returns no error exactly where the shards can be reconstructed.
pub repair-AreWhole :
    (md5 : Bytes → Bytes) (K : Field) (element : T → Field.F K) (value : Field.F K → T)
    (schedule : ℕ → List ℕ) (t : Tables) (io : FileIo) (d : Decoder) (check_parity : Bool)
    (disk : io.Disk)
    → AreWhole d.slice_byte_count d.file_integrity_infos
    → length d.recovery_set ≤ length d.file_integrity_infos
    → let r = repair md5 K element value schedule t io d check_parity disk in
      (r.repaired_paths ≡ [])
      × ((r.disk ≡ disk)
          × ((r.error ≡ none) ↔ (
              (shards : List Bytes) × (reconstructed_shards K element value schedule t d
                  check_parity
                ≡ ok shards))))
unfolding repair
repair-AreWhole md5 K element value schedule t io d check_parity disk whole few =
    elim (Result-cases (reconstructed_shards K element value schedule t d check_parity)) [
      | inl (e, failed) ↦
          let all : repair md5 K element value schedule t io d check_parity disk
              ≡ record { repaired_paths = []; error = some e; disk = disk } =
            rw (failed, repair) refl in
          (
            ap (λ (r : Repaired io.Disk). r.repaired_paths) all,
            (
              ap (λ (r : Repaired io.Disk). r.disk) all,
              (
                λ h. absurd (some-ne-none e (sym (ap (λ (r : Repaired io.Disk). r.error) all) ∙ h)),
                λ h. absurd (ground (arith, failed, h.1)),
              ),
            ),
          )
      | inr (shards, done) ↦
          let all : repair md5 K element value schedule t io d check_parity disk
              ≡ record { repaired_paths = []; error = none; disk = disk } =
            rw (done, repair)
              (write_all-AreWhole md5 io d d.checksum_to_location d.slice_byte_count d.recovery_set
                d.file_integrity_infos shards disk whole few) in
          (
            ap (λ (r : Repaired io.Disk). r.repaired_paths) all,
            (
              ap (λ (r : Repaired io.Disk). r.disk) all,
              (λ h. (shards, done), λ h. ap (λ (r : Repaired io.Disk). r.error) all),
            ),
          )
    ]
