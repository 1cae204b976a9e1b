-- ===== src/Coordinator/Autoscaler/Ticks.antt =====
-- coordinator/autoscale.rs: what a tick may do to the topology, and what it drops.
use turbovec_grpc.Prelude.{List, [], drop, take, true, ◌++◌, ◌+◌, ◌∷◌, ◌≡◌, ◌⊎◌}
use turbovec_grpc.Status.{Status}
use turbovec_grpc.Nodes.{ShardConfig}
use turbovec_grpc.Nodes.State.{Host}
use turbovec_grpc.Coordinator.{shard_ref}
use turbovec_grpc.Coordinator.Topology.{Service}
use turbovec_grpc.Coordinator.Topology.Rebinding.{SameMemory, Saved}
use turbovec_grpc.Coordinator.Moves.{Fleet, split}
use turbovec_grpc.Coordinator.Moves.Publishing.{Names}
use turbovec_grpc.Coordinator.Autoscaler.{StagedSplit, TickOutcome, drop_staged}

-- The next topology: the one that the tick read, which nothing has changed since, with the entries
-- of the staged shards in the place of the source, and only the source dropped, if anything.
pub record Grown (fleet : Fleet) (host : Host) (s now : Service) (split : StagedSplit)
    (o : TickOutcome) : Type 0 where
  pub configs : List ShardConfig
  pub not_moved : now.generation ≡ s.generation
  pub next_generation : o.service.generation ≡ s.generation + 1
  pub in_place :
      o.service.shards ≡ take split.at s.shards ++ (configs ++ drop (split.at + 1) s.shards)
  pub named : Names configs split.staged
  pub saved : now.durable ≡ true → Saved host o.service
  pub drops :
      (o.dropped ≡ [])
      ⊎ (o.dropped ≡ drop_staged fleet (shard_ref split.source.address split.source.index_id ∷ []))

-- The topology as it was, and nothing dropped but the staged shards.
pub record Left (fleet : Fleet) (now : Service) (split : StagedSplit) (o : TickOutcome)
    : Type 0 where
  pub memory : SameMemory now o.service
  pub drops : (o.dropped ≡ []) ⊎ (o.dropped ≡ drop_staged fleet split.staged)

-- Binding touches only the cached binding.
pub record BindsOnly (s s' : Service) : Type 0 where
  pub generation_kept : s'.generation ≡ s.generation
  pub shards_kept : s'.shards ≡ s.shards
  pub spares_kept : s'.spares ≡ s.spares
  pub disk_kept : s'.disk ≡ s.disk

module _ (fleet : Fleet) (host : Host) (s now : Service) (split : StagedSplit) where
  -- How a staged tick may end.
  abbrev pub Ends : TickOutcome → Type 0
  Ends o = Left fleet now split o ⊎ Grown fleet host s now split o
