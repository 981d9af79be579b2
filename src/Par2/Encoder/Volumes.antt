-- ===== src/Par2/Encoder/Volumes.antt =====
-- The recovery files that Write makes have each parity shard once.
use gopar.Common.{
  ℕ, zero, suc, ◌+◌, ◌-◌, ◌*◌, ◌%◌, ◌^◌, ◌<◌, ◌≤◌, ◌≡◌, ◌∙◌, sym, ap, refl, ◌==◌, ltb, leb, true,
  false, some, List, [], ◌∷◌, ◌++◌, All, Bool-cases, inl, inr, arith, length, get_or, insert,
}
use Prim.Native.Nat.add
use mathlib.Core.List.{append-nil, append_assoc}
use native.Mathlib.Nat.{mod-eq_of_lt}
use gopar.Common.Bytes.{Bytes, Result, ok, ◌>>=◌}
use gopar.Par2.Error.{Error}
use gopar.Par2.File.{File}
use gopar.Par2.Encoder.{
  Encoder, index_file, recovery_packets_from, volume_file, next_count, volumes,
}

-- The parity shards with their exponents from `i` on, `count` of them.
abbrev pub numbered : Encoder → ℕ → ℕ → List (ℕ × Bytes)
numbered e i zero = []
numbered e i (suc count) = (i, get_or e.parity_shards i []) ∷ numbered e (i + 1) count

-- The recovery packets of the files of the volumes, in order.
abbrev pub written_packets : Encoder → List (ℕ × ℕ) → Result Error (List (ℕ × Bytes))
written_packets e [] = ok []
written_packets e ((i, count) ∷ vs) = do
  file ← volume_file e i count
  packets ← written_packets e vs
  ok (file.recovery_packets ++ packets)

numbered-append :
    (e : Encoder) (i m n : ℕ) → numbered e i m ++ numbered e (i + m) n ≡ numbered e i (m + n)
numbered-append e i zero n =
    let same : i + 0 ≡ i = omega arith in
    let same' : n ≡ 0 + n = omega arith in
    ap (λ (k : ℕ). numbered e k n) same ∙ ap (numbered e i) same'
numbered-append e i (suc m) n =
    let same : i + suc m ≡ i + 1 + m = omega arith in
    ap (λ t. (i, get_or e.parity_shards i []) ∷ t)
      (ap (λ (k : ℕ). numbered e (i + 1) m ++ numbered e k n) same ∙ numbered-append e (i + 1) m n)
    ∙ ap (numbered e i) (sym (add.suc m n))

-- A key above all others is put behind them.
insert-above :
    (i : ℕ) (shard : Bytes) (packets : List (ℕ × Bytes))
    → All (λ p. p.0 < i) packets
    → insert ◌==◌ i shard packets ≡ packets ++ ((i, shard) ∷ [])
insert-above i shard [] h = refl
insert-above i shard ((j, old) ∷ packets) (lt, h) =
    let other : (i == j) ≡ false = ground arith in
    rw other (ap (λ t. (j, old) ∷ t) (insert-above i shard packets h))

All-above :
    (i : ℕ) (shard : Bytes) (packets : List (ℕ × Bytes))
    → All (λ p. p.0 < i) packets
    → All (λ p. p.0 < i + 1) (packets ++ ((i, shard) ∷ []))
All-above i shard [] h = (omega arith, tt)
All-above i shard (p ∷ packets) (lt, h) = (omega arith, All-above i shard packets h)

recovery_packets_from-numbered :
    (e : Encoder) (count i : ℕ) (packets : List (ℕ × Bytes))
    → i + count ≤ 2 ^ 16
    → All (λ p. p.0 < i) packets
    → recovery_packets_from e count i packets ≡ packets ++ numbered e i count
unfolding recovery_packets_from
recovery_packets_from-numbered e zero i packets few h = sym (append-nil packets)
recovery_packets_from-numbered e (suc count) i packets few h =
    let shard = get_or e.parity_shards i [] in
    let key : i % 2 ^ 16 ≡ i = mod-eq_of_lt (omega arith) in
    rw (key, insert-above i shard packets h)
      (recovery_packets_from-numbered e count (i + 1) (packets ++ ((i, shard) ∷ [])) (omega arith)
          (All-above i shard packets h)
        ∙ append_assoc packets ((i, shard) ∷ []) (numbered e (i + 1) count))

next_count_bounds :
    (total i volume_count : ℕ)
    → i < total
    → 0 < volume_count
    → (0 < next_count total i volume_count) × (i + next_count total i volume_count ≤ total)
unfolding next_count
next_count_bounds total i volume_count lt pos = ground arith

module _ (e : Encoder) (enough : e.parity_shard_count ≡ length e.parity_shards)
    (few : e.parity_shard_count ≤ 2 ^ 16) where
  volume_file-numbered :
      (i count : ℕ)
      → i + count ≤ e.parity_shard_count
      → (file : File) × (volume_file e i count ≡ ok file)
        × (file.recovery_packets ≡ numbered e i count)
  unfolding volume_file
  volume_file-numbered i count inside =
      let there : leb (i + count) (length e.parity_shards) ≡ true = ground arith in
      (
        record (index_file e) { recovery_packets = recovery_packets_from e count i [] },
        rw there refl,
        recovery_packets_from-numbered e count i [] (omega arith) tt,
      )

  volumes-numbered :
      (fuel i volume_count : ℕ)
      → e.parity_shard_count - i < fuel
      → 0 < volume_count
      → (vs : List (ℕ × ℕ)) × (volumes fuel e.parity_shard_count i volume_count ≡ some vs)
        × ((written_packets e vs ≡ ok (numbered e i (e.parity_shard_count - i)))
            × All (λ v. 0 < v.1) vs)
  unfolding volumes
  volumes-numbered zero i volume_count h pos = absurd (omega arith)
  volumes-numbered (suc fuel) i volume_count h pos =
      let total = e.parity_shard_count in
      elim (Bool-cases (ltb i total)) [
        | inr done ↦
            let none_left : total - i ≡ 0 = ground arith in
            ([], rw (done, volumes) refl, (ap (λ (k : ℕ). ok (numbered e i k)) (sym none_left), tt))
        | inl more ↦
            let lt : i < total = ground arith in
            let count = next_count total i volume_count in
            let (some_count, inside) = next_count_bounds total i volume_count lt pos in
            let (vs, found, (all, counts)) =
              volumes-numbered fuel (i + count) (count * 2) (omega arith) (omega arith) in
            let (file, made, packets) = volume_file-numbered i count inside in
            let rest = numbered e (i + count) (total - (i + count)) in
            let joined : file.recovery_packets ++ rest ≡ numbered e i (total - i) =
              ap (λ t. t ++ rest) packets
              ∙ numbered-append e i count (total - (i + count))
              ∙ ap (λ (k : ℕ). numbered e i k) (omega arith) in
            (
              (i, count) ∷ vs,
              rw (more, found, volumes) refl,
              (rw (made, all) (ap ok joined), (some_count, counts)),
            )
      ]

  -- With as many parity shards as their count says, and 2^16 of them at most, the loop of Write over
  -- the recovery files ends, no shard that it asks for is missing, and the recovery packets of its
  -- files are in order those of all parity shards, each under its own index as its exponent; no file
  -- is without any.
  pub written_packets-numbered :
      (vs : List (ℕ × ℕ)) × (volumes (suc e.parity_shard_count) e.parity_shard_count 0 1 ≡ some vs)
      × ((written_packets e vs ≡ ok (numbered e 0 e.parity_shard_count)) × All (λ v. 0 < v.1) vs)
  written_packets-numbered =
      let n = e.parity_shard_count in
      let whole : n - 0 ≡ n = omega arith in
      let (vs, found, (all, counts)) = volumes-numbered (suc n) 0 1 (omega arith) (omega arith) in
      (vs, found, (all ∙ ap (λ (k : ℕ). ok (numbered e 0 k)) whole, counts))
