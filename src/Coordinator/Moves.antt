-- ===== src/Coordinator/Moves.antt =====
-- coordinator/mod.rs: the calls that move rows: `import_ranges`, `stage_split`, `split` and `join`.
pub mod Staging
pub mod Partition
pub mod Progress
pub mod Gathering
pub mod Union
pub mod Publishing
use turbovec_grpc.Prelude.{
  List, Option, Text, [], if◌then◌else◌, is_empty, length, map, none, some, text, u64_mod, ℕ, ◌%◌,
  ◌++◌, ◌+◌, ◌==◌, ◌∷◌,
}
use turbovec_grpc.Status.{
  Result, empty_collection, err, invalid_argument, map_err, ok, panic, precondition, refuse_if,
  status, ◌>>=◌, ◌>>◌,
}
use turbovec_grpc.Wire.{Calibration, RowBlock, ShardRef}
use turbovec_grpc.Nodes.{ShardConfig, new_shard, with_index}
use turbovec_grpc.Nodes.State.{Host}
use turbovec_grpc.Service.Import.{ImportRowsRequest, block, import_start}
use turbovec_grpc.Coordinator.{Pinned, Probe, node_error, shard_ref}
use turbovec_grpc.Coordinator.Counts.{plan_counts}
use turbovec_grpc.Coordinator.Bind.{bind, require_positional}
use turbovec_grpc.Coordinator.Probing.{
  Cluster, configs_for_topology, flush_before_durable_rebind, probe, resolve,
}
use turbovec_grpc.Coordinator.Topology.{Service, rebind}

-- The transfer calls of the nodes, by address: `export_rows` of an index from a row on, as the
-- messages of the stream and how it ended; `import_rows` of the frames of a stream, which answers
-- with the handle of the new index.
pub record Fleet : Type 0 where
  pub cluster : Cluster
  pub export_rows : Text → Text → ℕ → ℕ → List RowBlock × Result (Unit {0})
  pub import_rows : Text → List ImportRowsRequest → Result Text

pub record ExportPlan : Type 0 where
  pub source : Probe
  pub start_row : ℕ
  pub count : ℕ

unfoldable pub empty_block : Probe → RowBlock
empty_block source = record {
  dim = source.info.dim;
  bit_width = source.info.bit_width;
  rows = 0;
  packed_codes = [];
  scales = [];
  tqplus_shift = source.calibration.tqplus_shift;
  tqplus_scale = source.calibration.tqplus_scale;
  labels = [];
}

-- One source's blocks, then what the other plans send, unless the stream broke.
unfoldable pub forward :
    Text
    → List RowBlock × Result (Unit {0})
    → List ImportRowsRequest × Result (Unit {0})
    → List ImportRowsRequest × Result (Unit {0})
forward address (blocks, ok u) (frames, ended) = (map block blocks ++ frames, ended)
forward address (blocks, err e) rest = (map block blocks, err (node_error address e))
forward address (blocks, panic) rest = (map block blocks, panic)

unfoldable pub to_config : ShardRef → ShardConfig
to_config shard =
    if is_empty shard.index_id
    then new_shard shard.address
    else with_index shard.address shard.index_id

module _ (fleet : Fleet) where
  -- The producer task: the frames behind the first, and how the task ended.
  unfoldable pub produce : List ExportPlan → List ImportRowsRequest × Result (Unit {0})
  unfolding empty_block forward
  produce [] = ([], ok tt)
  produce (plan ∷ plans) =
      let (frames, ended) = produce plans in
      if plan.count == 0
      then (block (empty_block plan.source) ∷ frames, ended)
      else forward plan.source.address
          (fleet.export_rows plan.source.address plan.source.index_id plan.start_row plan.count)
          (frames, ended)

  unfoldable pub dial_sources : List ExportPlan → Result (Unit {0})
  dial_sources [] = ok tt
  dial_sources (plan ∷ plans) = do fleet.cluster.dial plan.source.address; dial_sources plans

  -- The target sees the start frame and what was produced. Its failure is reported before the
  -- producer's; either one fails the call.
  unfoldable pub import_ranges : Text → ℕ → List ExportPlan → Result Text
  unfolding produce dial_sources
  import_ranges target expected_rows plans =
      let (frames, produced) = produce plans in
      do
        dial_sources plans
        fleet.cluster.dial target
        imported ←
            map_err (node_error target)
              (fleet.import_rows target (import_start expected_rows ∷ frames))
        produced
        ok imported

  -- The loop over the targets, zipped with their counts; `start += count` in a release build.
  unfoldable pub split_targets : Probe → ℕ → List Text → List ℕ → Result (List ShardRef)
  unfolding import_ranges
  split_targets source from [] counts = ok []
  split_targets source from (target ∷ targets) [] = ok []
  split_targets source from (target ∷ targets) (count ∷ counts) = do
    imported ←
        import_ranges target count
          (record { source = source; start_row = from; count = count } ∷ [])
    shards ← split_targets source ((from + count) % u64_mod) targets counts
    ok (shard_ref target imported ∷ shards)

  unfoldable pub stage_split :
      ShardConfig → List Text → List ℕ → Result (Probe × (List ShardRef × List ℕ))
  unfolding split_targets
  stage_split shard targets row_counts = do
    source ← resolve fleet.cluster shard
    require_positional source (text "Split")
    counts ← plan_counts source.info.len (length targets) row_counts
    shards ← split_targets source 0 targets counts
    ok (source, (shards, counts))

  -- What publishes the new members: the flush, their entries, the new table.
  unfoldable pub members : Service → List ShardRef → Result (List ShardConfig)
  members s shards = do
    flush_before_durable_rebind fleet.cluster s.durable shards
    configs_for_topology fleet.cluster s.shards shards

-- The new table, and the reply that tells its generation.
unfoldable pub publish {ℓ} :
    {A : Type ℓ} → Host → Result ((ℕ → A) × List ShardConfig) → Service → Result A × Service
publish host (err e) s = (err e, s)
publish host panic s = (panic, s)
publish host (ok (reply, configs)) s =
    let (published, s') = rebind host configs s in
    (do generation ← published; ok (reply generation), s')

pub record SplitRequest : Type 0 where
  pub source : Option ShardRef
  pub targets : List Text
  pub row_counts : List ℕ

pub record SplitResponse : Type 0 where
  pub shards : List ShardRef
  pub rows : List ℕ
  pub calibration : Calibration
  pub topology_generation : ℕ

pub record JoinRequest : Type 0 where
  pub sources : List ShardRef
  pub target : Text

pub record JoinResponse : Type 0 where
  pub rows : ℕ
  pub calibration : Calibration
  pub shard : ShardRef
  pub topology_generation : ℕ

-- The join's plan for a source: all its rows.
unfoldable pub join_plan : Probe → ExportPlan
join_plan source = record { source = source; start_row = 0; count = source.info.len }

module _ (fleet : Fleet) where
  unfoldable pub split_source : Option ShardRef → Result ShardConfig
  unfolding to_config
  split_source (some source) = ok (to_config source)
  split_source none =
      err (status invalid_argument (text "split needs a source shard to redistribute"))

  -- `split` up to the new members' entries.
  unfoldable pub stage_split_members :
      SplitRequest → Service → Result ((ℕ → SplitResponse) × List ShardConfig)
  unfolding split_source stage_split members
  stage_split_members req s = do
    source ← split_source req.source
    staged ← stage_split fleet source req.targets req.row_counts
    configs ← members fleet s staged.1.0
    ok (
      λ generation. record {
        shards = staged.1.0;
        rows = staged.1.1;
        calibration = staged.0.calibration;
        topology_generation = generation;
      },
      configs,
    )

  unfoldable pub split : Host → SplitRequest → Service → Result SplitResponse × Service
  unfolding stage_split_members publish
  split host req s = publish host (stage_split_members req s) s

  -- Each source, probed and seen to be positional.
  unfoldable pub join_probes : List ShardConfig → Result (List Probe)
  join_probes [] = ok []
  join_probes (source ∷ sources) = do
    probe ← resolve fleet.cluster source
    require_positional probe (text "Join")
    probes ← join_probes sources
    ok (probe ∷ probes)

  -- `join` up to the combined index on the target.
  unfoldable pub stage_join : List ShardConfig → Text → ℕ → Result (Pinned × ShardRef)
  unfolding join_probes import_ranges join_plan
  stage_join sources target generation = do
    refuse_if (is_empty sources) (
        precondition empty_collection
          (text "no sources were named and no shards are configured, so there is nothing to join"))
    refuse_if (is_empty target) (
        status invalid_argument
          (text "join needs a target node address to build the combined index on"))
    probes ← join_probes sources
    pinned ← bind generation probes
    let address : Text = (new_shard target).address
    imported ← import_ranges fleet address pinned.rows (map join_plan probes)
    ok (pinned, shard_ref address imported)

  unfoldable pub join_sources : JoinRequest → Service → List ShardConfig
  join_sources req s = if is_empty req.sources then s.shards else map to_config req.sources

  unfoldable pub stage_join_members :
      JoinRequest → Service → Result ((ℕ → JoinResponse) × List ShardConfig)
  unfolding join_sources stage_join members
  stage_join_members req s = do
    staged ← stage_join (join_sources req s) req.target s.generation
    configs ← members fleet s (staged.1 ∷ [])
    ok (
      λ generation. record {
        rows = staged.0.rows;
        calibration = staged.0.calibration;
        shard = staged.1;
        topology_generation = generation;
      },
      configs,
    )

  unfoldable pub join : Host → JoinRequest → Service → Result JoinResponse × Service
  unfolding stage_join_members publish
  join host req s = publish host (stage_join_members req s) s
