-- ===== src/Coordinator/Autoscaler.antt =====
-- coordinator/autoscale.rs: `autoscale_tick` and `drop_staged`, the grow-only policy.
pub mod Ticks
pub mod Unsynced
use turbovec_grpc.Prelude.{
  Bool, List, Option, Text, [], drop, false, if◌then◌else◌, is_empty, ltb, none, retain, some, suc,
  take, true, ℕ, ◌++◌, ◌+◌, ◌∷◌,
}
use turbovec_grpc.Status.{Result, err, ok, panic, ◌>>=◌, ◌>>◌}
use turbovec_grpc.Wire.{ShardRef}
use turbovec_grpc.Nodes.{ShardConfig, with_index}
use turbovec_grpc.Nodes.State.{Host}
use turbovec_grpc.Coordinator.{Pinned, Probe, shard_ref}
use turbovec_grpc.Coordinator.Bind.{bind}
use turbovec_grpc.Coordinator.Probing.{
  configs_for_topology, flush_before_durable_rebind, probe, probe_all,
}
use turbovec_grpc.Coordinator.Topology.{Service, all_probes, collection, rebind_if_unchanged}
use turbovec_grpc.Coordinator.Moves.{Fleet, split, stage_split}

-- What is left of a result that is only looked at for success.
abbrev pub success {ℓ} : {A : Type ℓ} → Result A → Option A
success (ok a) = some a
success (err e) = none
success panic = none

infixl 5 ◌or_quit◌
abbrev pub ◌or_quit◌ {ℓ κ} : {A : Type ℓ} {B : Type κ} → Option A → (A → Option B) → Option B
none or_quit next = none
some a or_quit next = next a

-- `enumerate().find(|(_, probe)| probe.info.len > max_rows)`
unfoldable pub first_over : ℕ → ℕ → List Probe → Option (ℕ × Probe)
first_over max_rows at [] = none
first_over max_rows at (probe ∷ probes) =
    let rest = first_over max_rows (suc at) probes in
    if ltb max_rows probe.info.len then some (at, probe) else rest

abbrev pub first_of {ℓ} : {A : Type ℓ} → List A → Option A
first_of [] = none
first_of (x ∷ xs) = some x

-- What a tick has staged: the place of the source in the table, the source and the new shards.
pub record StagedSplit : Type 0 where
  pub at : ℕ
  pub source : Probe
  pub staged : List ShardRef

-- What a tick leaves: the service, and the shards that the nodes were told to drop.
pub record TickOutcome : Type 0 where
  pub service : Service
  pub dropped : List ShardRef

-- The table with the entries `configs` in the place of the entry `at`.
unfoldable pub replace_at : ℕ → List ShardConfig → List ShardConfig → List ShardConfig
replace_at at configs table = take at table ++ (configs ++ drop (at + 1) table)

unfoldable pub publish_tick : Host → ℕ → Result (List ShardConfig) → Service → Result ℕ × Service
publish_tick host generation (ok next) s = rebind_if_unchanged host generation next s
publish_tick host generation (err e) s = (err e, s)
publish_tick host generation panic s = (panic, s)

module _ (fleet : Fleet) where
  -- The tick up to the staged split, which no outcome of a call can make fail the loop: from the
  -- topology it read, and the spare pool as it is when a shard was found over the ceiling.
  unfoldable pub stage_tick : ℕ → ℕ → List ShardConfig → List Text → Option StagedSplit
  unfolding first_over
  stage_tick max_rows generation table spares =
      if is_empty table
      then none
      else success (all_probes (probe_all fleet.cluster table)) or_quit λ shards.
          success (bind generation shards) or_quit λ pinned.
          first_over max_rows 0 pinned.shards or_quit λ found. first_of spares or_quit λ spare.
          success (do fleet.cluster.dial spare; fleet.cluster.list_indexes spare) or_quit λ _.
          success (
            stage_split fleet (with_index found.1.address found.1.index_id)
              (found.1.address ∷ spare ∷ []) [])
          or_quit λ split. some (record { at = found.0; source = split.0; staged = split.1.0 })

  -- The entries to publish, of the service as it is by then.
  unfoldable pub next_table : Service → List ShardConfig → StagedSplit → Result (List ShardConfig)
  unfolding replace_at
  next_table s table split = do
    flush_before_durable_rebind fleet.cluster s.durable split.staged
    configs ← configs_for_topology fleet.cluster s.shards split.staged
    ok (replace_at split.at configs table)

  abbrev pub reached : ShardRef → Bool
  reached shard = elim (fleet.cluster.dial shard.address) [
    | ok u ↦ true
    | err e ↦ false
    | panic ↦ false
  ]

  -- `drop_staged`: a drop is sent to each node that can be dialled; how it ends is only logged.
  unfoldable pub drop_staged : List ShardRef → List ShardRef
  drop_staged staged = retain reached staged

  -- The source is dropped once the collection has come up.
  unfoldable pub drop_source : StagedSplit → Result Pinned × Service → TickOutcome
  unfolding drop_staged
  drop_source split (ok pinned, s) = record {
    service = s;
    dropped = drop_staged (shard_ref split.source.address split.source.index_id ∷ []);
  }
  drop_source split (err e, s) = record { service = s; dropped = [] }
  drop_source split (panic, s) = record { service = s; dropped = [] }

  unfoldable pub settle_tick : StagedSplit → Result ℕ × Service → TickOutcome
  unfolding drop_source drop_staged
  settle_tick split (ok generation, s) = drop_source split (collection fleet.cluster s)
  settle_tick split (err e, s) = record { service = s; dropped = drop_staged split.staged }
  settle_tick split (panic, s) = record { service = s; dropped = [] }

  -- One tick. `s` is the service whose topology the tick reads, `pool` its spare pool a little
  -- later, and `now` the service when the staged split is published: other calls may have changed
  -- it in between.
  unfoldable pub autoscale_tick : Host → ℕ → Service → List Text → Service → TickOutcome
  unfolding stage_tick next_table settle_tick publish_tick
  autoscale_tick host max_rows s pool now = elim (stage_tick max_rows s.generation s.shards pool) [
    | none ↦ record { service = now; dropped = [] }
    | some split ↦
        settle_tick split (publish_tick host s.generation (next_table now s.shards split) now)
  ]
