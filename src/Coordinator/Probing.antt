-- ===== src/Coordinator/Probing.antt =====
-- coordinator/mod.rs: the calls that find out what a node serves: `probe`, `probe_for_search` with
-- its failover, `probe_all`, `resolve`, `configs_for_topology` and `flush_before_durable_rebind`.
use turbovec_grpc.Prelude.{
  Bool, List, Option, Text, [], display, if◌then◌else◌, length, none, not, some, text, text_eq, ℕ,
  ◌++◌, ◌==◌, ◌∷◌,
}
use turbovec_grpc.Status.{
  Result, Status, ambiguous_index, err, map_err, ok, panic, precondition, ◌>>=◌, ◌>>◌,
}
use turbovec_grpc.Wire.{Calibration, IndexInfo, ShardRef}
use turbovec_grpc.Nodes.{ShardConfig, positive_only, with_index_generation}
use turbovec_grpc.Coordinator.{Probe, node_error}
use turbovec_grpc.Coordinator.Bind.{validate_required_generation}

-- What the nodes answer, by address: the network is a parameter. `dial` is the making of a
-- channel, which refuses an address that is no endpoint.
pub record Cluster : Type 0 where
  pub dial : Text → Result (Unit {0})
  pub list_indexes : Text → Result (List IndexInfo)
  pub get_index_info : Text → Text → Result IndexInfo
  pub get_calibration : Text → Text → Result Calibration
  pub flush : Text → Text → Result ℕ

module _ (cluster : Cluster) where
  -- The handle of a shard that names none is that of the node's only index.
  unfoldable pub sole_index : Text → List IndexInfo → Result Text
  sole_index address (index ∷ []) = ok index.index_id
  sole_index address listed = err (
      precondition ambiguous_index (
        text "shard "
        ++ (address
            ++ (text " was configured without an index handle and the node holds "
                ++ (display (length listed)
                    ++ text " indexes; name the handle in the node table")))))

  unfoldable pub index_handle : Text → Option Text → Result Text
  unfolding sole_index
  index_handle address (some id) = ok id
  index_handle address none = do
    listed ← map_err (node_error address) (cluster.list_indexes address)
    sole_index address listed

  unfoldable pub probe : Text → Option Text → Result Probe
  unfolding index_handle
  probe address index_id = do
    id ← index_handle address index_id
    info ← map_err (node_error address) (cluster.get_index_info address id)
    calibration ← map_err (node_error address) (cluster.get_calibration address id)
    ok (record { address = address; index_id = id; info = info; calibration = calibration })

  -- The client, then the probe.
  unfoldable pub dial_and_probe : Text → Option Text → Result Probe
  unfolding probe
  dial_and_probe address index_id = do cluster.dial address; probe address index_id

  unfoldable pub resolve : ShardConfig → Result Probe
  unfolding dial_and_probe
  resolve shard = dial_and_probe shard.address shard.index_id

  -- One replica: a call that fails, or another generation, passes it over.
  unfoldable pub replica_if_current : ℕ → Result Probe → Option Probe
  replica_if_current required (ok p) = if p.info.generation == required then some p else none
  replica_if_current required (err e) = none
  replica_if_current required panic = none

  -- The loop over the replicas. A replica that cannot be dialled at all ends it.
  unfoldable pub first_replica : Option Text → ℕ → List Text → Status → Result Probe
  unfolding replica_if_current
  first_replica index_id required [] primary_error = err primary_error
  first_replica index_id required (address ∷ replicas) primary_error =
      let rest = first_replica index_id required replicas primary_error in
      cluster.dial address >>= λ _. elim (replica_if_current required (probe address index_id)) [
        | some replica ↦ ok replica
        | none ↦ rest
      ]

  unfoldable pub fail_over : ShardConfig → Option ℕ → Status → Result Probe
  unfolding first_replica
  fail_over shard none primary_error = err primary_error
  fail_over shard (some required) primary_error =
      first_replica shard.index_id required shard.replicas primary_error

  unfoldable pub or_fail_over : ShardConfig → Result Probe → Result Probe
  unfolding fail_over
  or_fail_over shard (ok p) = ok p
  or_fail_over shard (err e) = fail_over shard shard.required_generation e
  or_fail_over shard panic = panic

  unfoldable pub probe_for_search : ShardConfig → Result Probe
  unfolding probe or_fail_over
  probe_for_search shard = do
    cluster.dial shard.address
    or_fail_over shard
        (do p ← probe shard.address shard.index_id; validate_required_generation shard p; ok p)

  unfoldable pub probe_all : List ShardConfig → List (Result Probe)
  probe_all [] = []
  probe_all (shard ∷ table) = probe_for_search shard ∷ probe_all table

  -- Flush every future member, when the topology is durable.
  unfoldable pub flush_all : List ShardRef → Result (Unit {0})
  flush_all [] = ok tt
  flush_all (shard ∷ shards) = do
    cluster.dial shard.address
    _ ← map_err (node_error shard.address) (cluster.flush shard.address shard.index_id)
    flush_all shards

  unfoldable pub flush_before_durable_rebind : Bool → List ShardRef → Result (Unit {0})
  unfolding flush_all
  flush_before_durable_rebind durable shards = if not durable then ok tt else flush_all shards

  -- The replicas of the first shard at an address in the old table.
  unfoldable pub old_replicas : Text → List ShardConfig → List Text
  old_replicas address [] = []
  old_replicas address (old ∷ previous) =
      if text_eq old.address address then old.replicas else old_replicas address previous

  unfoldable pub configs_for_topology : List ShardConfig → List ShardRef → Result (List ShardConfig)
  unfolding old_replicas
  configs_for_topology previous [] = ok []
  configs_for_topology previous (shard ∷ shards) = do
    cluster.dial shard.address
    info ← map_err (node_error shard.address) (cluster.get_index_info shard.address shard.index_id)
    let config : ShardConfig =
        with_index_generation shard.address shard.index_id (positive_only (some info.generation))
    rest ← configs_for_topology previous shards
    ok (record config { replicas = old_replicas config.address previous } ∷ rest)
