-- ===== src/Coordinator/Moves/Partition.antt =====
-- coordinator/mod.rs: what the targets of a split hold in the end, and when a split goes through.
use turbovec_grpc.Prelude.{
  All, List, Text, [], ap, arith, inl, inr, length, map, refl, subst, text, u64_mod, ℕ, ◌%◌, ◌*◌,
  ◌++◌, ◌+◌, ◌∙◌, ◌∷◌, ◌≡◌, ◌≤◌, ◌⊎◌,
}
use turbovec_grpc.Status.{
  >>=-eq-ok, Result, Status, err, err-ne-ok, map_err, ok, ok-injective, panic, panic-ne-ok,
}
use turbovec_grpc.Wire.{ShardRef}
use turbovec_grpc.Nodes.{ShardConfig}
use turbovec_grpc.Service.Import.{Parts, import_start}
use turbovec_grpc.Service.Blocks.{names_of, range, row_bytes, times_sum}
use turbovec_grpc.Service.Ranges.{range-append-range}
use turbovec_grpc.Service.Transfer.{parts_of, range_all}
use turbovec_grpc.Coordinator.{Probe, node_error, shard_ref}
use turbovec_grpc.Coordinator.Counts.{plan_counts, plan_counts-sum, sum}
use turbovec_grpc.Coordinator.Bind.{require_positional}
use turbovec_grpc.Coordinator.Probing.{probe, resolve}
use turbovec_grpc.Coordinator.Moves.{
  ExportPlan, Fleet, dial_sources, import_ranges, members, produce, split_targets, stage_split,
}
use turbovec_grpc.Coordinator.Moves.Staging.{
  Landed, Serves, Stored, plan_at, produce-bound, sent_frames, sent_frames-parts_of,
}

-- Each shard's node made the parts that stand at its place.
abbrev pub LandedEach : Fleet → List ShardRef → List Parts → Type 0
LandedEach fleet [] [] = Unit
LandedEach fleet (shard ∷ shards) (parts ∷ rest) =
    Landed fleet shard parts × LandedEach fleet shards rest
LandedEach fleet [] (parts ∷ rest) = ⊥
LandedEach fleet (shard ∷ shards) [] = ⊥

-- The entries of all parts, one after the other.
abbrev pub gather {ℓ} : {A : Type ℓ} → (Parts → List A) → List Parts → List A
gather field [] = []
gather field (parts ∷ rest) = field parts ++ gather field rest

pub map_err-ok {ℓ} :
    {A : Type ℓ} (f : Status → Status) (r : Result A) (a : A) → map_err f r ≡ ok a → r ≡ ok a
map_err-ok f (ok x) a h = h
map_err-ok f (err e) a h = absurd (err-ne-ok h)
map_err-ok f panic a h = absurd (panic-ne-ok h)

module _ (fleet : Fleet) where
  pub import_ranges-ok :
      (target : Text) (n : ℕ) (plans : List ExportPlan) (id : Text)
      → import_ranges fleet target n plans ≡ ok id
      → (fleet.import_rows target (import_start n ∷ (produce fleet plans).0) ≡ ok id)
        × ((produce fleet plans).1 ≡ ok tt)
  unfolding import_ranges
  import_ranges-ok target n plans id h =
      let (_, _, h₁) = >>=-eq-ok (dial_sources fleet plans) _ h in
      let (_, _, h₂) = >>=-eq-ok (fleet.cluster.dial target) _ h₁ in
      let (a, imported, h₃) = >>=-eq-ok (map_err (node_error target) _) _ h₂ in
      let (_, produced, h₄) = >>=-eq-ok (produce fleet plans).1 _ h₃ in
      (map_err-ok _ _ a imported ∙ h₄, produced)

  stage_split-ok :
      (shard : ShardConfig) (source : Probe) (targets : List Text) (row_counts : List ℕ)
      (shards : List ShardRef) (counts : List ℕ)
      → stage_split fleet shard targets row_counts ≡ ok (source, (shards, counts))
      → (plan_counts source.info.len (length targets) row_counts ≡ ok counts)
        × (split_targets fleet source 0 targets counts ≡ ok shards)
  unfolding stage_split
  stage_split-ok shard source targets row_counts shards counts h =
      let (probe, _, h₁) = >>=-eq-ok (resolve fleet.cluster shard) _ h in
      let (_, _, h₂) = >>=-eq-ok (require_positional probe (text "Split")) _ h₁ in
      let (planned, counted, h₃) =
        >>=-eq-ok (plan_counts probe.info.len (length targets) row_counts) _ h₂ in
      let (members, moved, h₄) = >>=-eq-ok (split_targets fleet probe 0 targets planned) _ h₃ in
      let same : (probe, (members, planned)) ≡ (source, (shards, counts)) = ok-injective h₄ in
      subst
        (λ r.
          (plan_counts r.0.info.len (length targets) row_counts ≡ ok r.1.1)
          × (split_targets fleet r.0 0 targets r.1.1 ≡ ok r.1.0))
        same (counted, moved)

module _ (fleet : Fleet) (stored : Stored) (source : Probe)
    (serves : Serves fleet stored source) where
  slices : ℕ → List ℕ → List Parts
  slices from [] = []
  slices from (count ∷ counts) =
      parts_of stored.index stored.labels stored.dim serves.laid from count
      ∷ slices (from + count) counts

  split_targets-LandedEach :
      (targets : List Text) (counts : List ℕ) (from : ℕ) (shards : List ShardRef)
      → length counts ≡ length targets
      → from ≤ stored.index.len
      → split_targets fleet source from targets counts ≡ ok shards
      → (from + sum counts ≤ stored.index.len) × LandedEach fleet shards (slices from counts)
  unfolding split_targets slices shard_ref
  split_targets-LandedEach [] [] from shards e at h =
      (omega arith, subst (λ ss. LandedEach fleet ss []) (ok-injective h) tt)
  split_targets-LandedEach [] (count ∷ counts) from shards e at h = absurd (omega arith)
  split_targets-LandedEach (target ∷ targets) [] from shards e at h = absurd (omega arith)
  split_targets-LandedEach (target ∷ targets) (count ∷ counts) from shards e at h =
      let (id, imported, h₁) =
        >>=-eq-ok
          (import_ranges fleet target count (plan_at fleet stored source serves from count ∷ [])) _
          h in
      let (rest, more, h₂) =
        >>=-eq-ok (split_targets fleet source ((from + count) % u64_mod) targets counts) _ h₁ in
      let (accepted, ended) =
        import_ranges-ok fleet target count (plan_at fleet stored source serves from count ∷ []) id
          imported in
      let here = produce-bound fleet stored source serves from count tt at ended in
      let unwrapped : (from + count) % u64_mod ≡ from + count =
        omega (arith, here, serves.laid.fits) in
      let (bound, landed) =
        split_targets-LandedEach targets counts (from + count) rest (omega arith) here
          (rw (unwrapped) at more) in
      (
        omega arith,
        subst (λ ss. LandedEach fleet ss (slices from (count ∷ counts))) (ok-injective h₂)
            (
              record {
                frames = sent_frames fleet stored source serves from count;
                accepted = accepted;
                made = (sent_frames-parts_of fleet stored source serves from count here).0;
              },
              landed,
            ),
      )

  -- Slices that follow each other make up the range they span.
  gather-slices :
      (from : ℕ) (counts : List ℕ)
      → (gather (λ p. p.packed) (slices from counts)
          ≡ range
              (from * row_bytes stored.index stored.dim)
              (sum counts * row_bytes stored.index stored.dim)
              stored.index.packed_codes)
        × (gather (λ p. p.scales) (slices from counts)
            ≡ range from (sum counts) stored.index.scales)
        × (gather (λ p. p.labels) (slices from counts)
            ≡ range from (sum counts) (names_of stored.index stored.labels))
        × (map (λ p. p.rows) (slices from counts) ≡ counts)
  unfolding slices
  gather-slices from [] = (
    ap (λ n. range (from * row_bytes stored.index stored.dim) n stored.index.packed_codes)
        (none_bytes (row_bytes stored.index stored.dim)),
    refl,
    refl,
    refl,
  )
    where
      none_bytes : (b : ℕ) → 0 ≡ 0 * b
      none_bytes b = omega arith
  gather-slices from (count ∷ counts) =
      let w = row_bytes stored.index stored.dim in
      let (codes, scales, labels, rows) = gather-slices (from + count) counts in
      (
        rw (codes, times_sum from count w, times_sum count (sum counts) w)
            (range-append-range (from * w) (count * w) (sum counts * w) stored.index.packed_codes),
        rw (scales) (range-append-range from count (sum counts) stored.index.scales),
        rw (labels)
            (range-append-range from count (sum counts) (names_of stored.index stored.labels)),
        ap (◌∷◌ count) rows,
      )

  -- Made with the quantiser of the source.
  pub HasSource : Parts → Type 0
  HasSource parts =
      (parts.dim ≡ stored.dim)
      × (parts.bit_width ≡ stored.index.bit_width)
      × (parts.tqplus_shift ≡ stored.index.tqplus_shift)
      × (parts.tqplus_scale ≡ stored.index.tqplus_scale)

  slices-HasSource : (from : ℕ) (counts : List ℕ) → All HasSource (slices from counts)
  unfolding slices HasSource
  slices-HasSource from [] = tt
  slices-HasSource from (count ∷ counts) =
      ((refl, refl, refl, refl), slices-HasSource (from + count) counts)

  all_counted :
      (counts : List ℕ)
      → 0 + sum counts ≤ stored.index.len
      → (sum counts ≡ source.info.len) ⊎ (u64_mod ≤ sum counts)
      → sum counts ≡ stored.index.len
  all_counted counts bound (inl e) = e ∙ serves.len_told
  all_counted counts bound (inr h) = absurd (omega (arith, serves.laid.fits))

  -- A split that returns has moved every row of the source, once and in order: the targets' parts
  -- have the counts it reports and, put together, are the source's codes, scales and labels.
  pub stage_split-LandedEach :
      (shard : ShardConfig) (targets : List Text) (row_counts : List ℕ) (shards : List ShardRef)
      (counts : List ℕ)
      → stage_split fleet shard targets row_counts ≡ ok (source, (shards, counts))
      → (landed : List Parts) × LandedEach fleet shards landed
        × All HasSource landed
        × (map (λ p. p.rows) landed ≡ counts)
        × (gather (λ p. p.packed) landed ≡ stored.index.packed_codes)
        × (gather (λ p. p.scales) landed ≡ stored.index.scales)
        × (gather (λ p. p.labels) landed ≡ names_of stored.index stored.labels)
  stage_split-LandedEach shard targets row_counts shards counts h =
      let (planned, moved) = stage_split-ok fleet shard source targets row_counts shards counts h in
      let (one_each, total) =
        plan_counts-sum source.info.len (length targets) row_counts counts planned in
      let (bound, landed) =
        split_targets-LandedEach targets counts 0 shards one_each (omega arith) moved in
      let complete : sum counts ≡ stored.index.len = all_counted counts bound total in
      let (codes, scales, labels, rows) = gather-slices 0 counts in
      let w = row_bytes stored.index stored.dim in
      (
        slices 0 counts,
        landed,
        slices-HasSource 0 counts,
        rows,
        codes
            ∙ range_all (0 * w) (sum counts * w) stored.index.packed_codes (omega arith)
                (rw (complete) (omega (arith, serves.laid.codes_each))),
        scales
            ∙ range_all 0 (sum counts) stored.index.scales refl
                (omega (arith, serves.laid.one_scale_each)),
        labels
            ∙ range_all 0 (sum counts) (names_of stored.index stored.labels) refl
                (omega (arith, serves.laid.one_label_each)),
      )
