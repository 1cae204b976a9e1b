-- ===== src/Nodes/Durable.antt =====
-- The topology file across failures and restarts.
use turbovec_grpc.Prelude.{List, Text, arith, false, is_empty, none, some, ℕ, ◌<◌, ◌≡◌, ◌≢◌, ◌⊎◌}
use turbovec_grpc.Fallible.{done}
use turbovec_grpc.Nodes.{NodeTable, ShardConfig}
use turbovec_grpc.Nodes.State.{
  Disk, Host, PersistedTopology, RoundTrips, attempt, load_or_initialize, persist_topology,
  read_state, remove_temp, topology_version,
}

module _ (host : Host) (generation : ℕ) (shards : List ShardConfig) (spares : List Text) where
  abbrev pub written : PersistedTopology
  written = record {
    version = topology_version;
    generation = generation;
    shards = shards;
    spares = spares;
  }

  -- Wherever the file system fails, the state file holds its old bytes, and the call has failed, or
  -- all of the new ones, never a part. The temporary file is as it was before, or gone, unless the
  -- call failed and the removal of the file failed too.
  pub persist_topology-atomic :
      (d : Disk)
      → let (r, d') = persist_topology host generation shards spares d in
        (((d'.state ≡ d.state) × (r ≢ done tt)) ⊎ (d'.state ≡ some (host.encode written)))
        × ((d'.temp ≡ d.temp)
            ⊎ ((d'.temp ≡ none) ⊎ ((r ≢ done tt) × (host.fault remove_temp ≢ none))))
  unfolding persist_topology
  persist_topology-atomic d = ground arith

  -- What was persisted is what a restart loads, whatever the startup table says.
  pub load-persist :
      (initial : NodeTable) (d : Disk)
      → RoundTrips host
      → host.fault read_state ≡ none
      → (persist_topology host generation shards spares d).0 ≡ done tt
      → (load_or_initialize host initial (persist_topology host generation shards spares d).1).0
        ≡ done (generation, record { shards = shards }, spares)
  unfolding persist_topology load_or_initialize
  load-persist initial d rt rd h = ground (arith, rt written)

-- A state file with what was written loads as that.
pub load_written :
    (host : Host) (generation : ℕ) (shards : List ShardConfig) (spares : List Text)
    (initial : NodeTable) (d : Disk)
    → RoundTrips host
    → host.fault read_state ≡ none
    → 0 < generation
    → is_empty shards ≡ false
    → d.state ≡ some (host.encode (written host generation shards spares))
    → (load_or_initialize host initial d).0 ≡ done (generation, record { shards = shards }, spares)
unfolding load_or_initialize attempt
load_written host generation shards spares initial d rt rd pos full e =
    ground (arith, rt (written host generation shards spares))
