-- ===== src/Coordinator/Moves/Progress.antt =====
-- coordinator/mod.rs: a split whose nodes do their part goes through.
use turbovec_grpc.Prelude.{List, Text, [], arith, length, refl, u64_mod, ℕ, ◌%◌, ◌+◌, ◌∷◌, ◌≡◌, ◌≤◌}
use turbovec_grpc.Status.{ok}
use turbovec_grpc.Fallible.{Fallible, done}
use turbovec_grpc.Service.Transfer.{parts_of}
use turbovec_grpc.Wire.{ShardRef, positional}
use turbovec_grpc.Nodes.{ShardConfig}
use turbovec_grpc.Service.Import.{ImportRowsRequest, Parts, formed, import_index}
use turbovec_grpc.Coordinator.{Probe, shard_ref}
use turbovec_grpc.Coordinator.Counts.{plan_counts, sum}
use turbovec_grpc.Coordinator.Bind.{is_positional, require_positional}
use turbovec_grpc.Coordinator.Probing.{resolve}
use turbovec_grpc.Coordinator.Moves.{Fleet, dial_sources, import_ranges, split_targets, stage_split}
use turbovec_grpc.Coordinator.Moves.Staging.{
  Serves, Stored, plan_at, sent_frames, sent_frames-parts_of,
}

-- Every node can be dialled, and takes frames of which the code of `import_rows` makes an index with
-- the library's `from_parts`.
pub record IsWilling {I : Type 0} (fleet : Fleet) (from_parts : Parts → Fallible I) : Type 0 where
  pub dials : (address : Text) → fleet.cluster.dial address ≡ ok tt
  pub takes :
      (target : Text) (frames : List ImportRowsRequest) (index : I) (labels : List ℕ)
      → import_index from_parts frames ≡ ok (index, labels)
      → (id : Text) × (fleet.import_rows target frames ≡ ok id)

module _ {I : Type 0} (fleet : Fleet) (stored : Stored) (source : Probe)
    (serves : Serves fleet stored source) (from_parts : Parts → Fallible I)
    (willing : IsWilling fleet from_parts)
    (forms : (from count : ℕ)
      → from + count ≤ stored.index.len
      → (index : I) × (from_parts
            (parts_of stored.index stored.labels stored.dim serves.laid from count)
          ≡ done index)) where
  import_ranges-total :
      (target : Text) (from count : ℕ)
      → from + count ≤ stored.index.len
      → (id : Text) × (import_ranges fleet target count
            (plan_at fleet stored source serves from count ∷ [])
          ≡ ok id)
  unfolding import_ranges dial_sources import_index formed
  import_ranges-total target from count h =
      let (made, ended) = sent_frames-parts_of fleet stored source serves from count h in
      let (index, accepted) = forms from count h in
      let (id, taken) =
        willing.takes target (sent_frames fleet stored source serves from count) index
          (parts_of stored.index stored.labels stored.dim serves.laid from count).labels
          (rw (made, accepted) refl) in
      (id, rw (willing.dials source.address, willing.dials target, taken, ended) refl)

  split_targets-total :
      (targets : List Text) (counts : List ℕ) (from : ℕ)
      → from + sum counts ≤ stored.index.len
      → (shards : List ShardRef) × (split_targets fleet source from targets counts ≡ ok shards)
  unfolding split_targets
  split_targets-total [] counts from h = ([], refl)
  split_targets-total (target ∷ targets) [] from h = ([], refl)
  split_targets-total (target ∷ targets) (count ∷ counts) from h =
      let (id, imported) = import_ranges-total target from count (omega arith) in
      let (shards, rest) =
        split_targets-total targets counts ((from + count) % u64_mod)
          (omega (arith, h, serves.laid.fits)) in
      (shard_ref target id ∷ shards, rw (imported, rest) refl)

  -- A split goes through when its source resolves to a positional index, its counts are accepted
  -- and add up to the source's rows, the nodes can be dialled and take what `import_rows` accepts,
  -- and the library's `from_parts` accepts the parts of any rows of the source: no check of the
  -- row path refuses what another part of it made.
  pub stage_split_live :
      (shard : ShardConfig) (targets : List Text) (row_counts counts : List ℕ)
      → resolve fleet.cluster shard ≡ ok source
      → source.info.kind ≡ positional
      → plan_counts source.info.len (length targets) row_counts ≡ ok counts
      → sum counts ≡ source.info.len
      → (shards : List ShardRef) × (stage_split fleet shard targets row_counts
          ≡ ok (source, (shards, counts)))
  unfolding stage_split require_positional is_positional
  stage_split_live shard targets row_counts counts found kind planned total =
      let (shards, moved) = split_targets-total targets counts 0 (omega (arith, serves.len_told)) in
      (shards, rw (found, kind, planned, moved) refl)
