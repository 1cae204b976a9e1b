-- ===== src/Coordinator/Moves/Publishing.antt =====
-- coordinator/mod.rs: what a split and a join leave of the topology.
use turbovec_grpc.Prelude.{
  List, [], ap, map, none, refl, some, subst, sym, true, ℕ, ◌+◌, ◌∙◌, ◌∷◌, ◌≡◌,
}
use turbovec_grpc.Status.{>>=-eq-ok, Result, err, map_err, names, ok, ok-injective, panic, ◌>>=◌}
use turbovec_grpc.Wire.{ShardRef}
use turbovec_grpc.Nodes.{ShardConfig, with_index, with_index_generation, with_scheme}
use turbovec_grpc.Nodes.State.{Host}
use turbovec_grpc.Coordinator.{node_error}
use turbovec_grpc.Coordinator.Probing.{Cluster, configs_for_topology, flush_before_durable_rebind}
use turbovec_grpc.Coordinator.Topology.{Service, rebind, rebind_inner}
use turbovec_grpc.Coordinator.Topology.Rebinding.{Rebound, SameMemory, Saved, rebind_inner-Rebound}
use turbovec_grpc.Coordinator.Moves.{
  Fleet, JoinRequest, JoinResponse, SplitRequest, SplitResponse, join, join_sources, members,
  publish, split, split_source, stage_join, stage_join_members, stage_split, stage_split_members,
}

-- The table names just these shards, each by its handle and in this order.
abbrev pub Names : List ShardConfig → List ShardRef → Type 0
Names configs shards =
    (map (λ config. config.address) configs ≡ map (λ shard. with_scheme shard.address) shards)
    × (map (λ config. config.index_id) configs ≡ map (λ shard. some shard.index_id) shards)

-- The next topology: these shards, and only they, under the next generation, with nothing bound
-- and, where there is a state file, saved in it; or else the topology as it was.
abbrev pub Republished : Host → Service → List ShardRef → ℕ → Service → Type 0
Republished host s shards generation s' =
    Names s'.shards shards
    × (generation ≡ s.generation + 1)
    × (s'.generation ≡ generation)
    × (s'.pinned ≡ none)
    × (s.durable ≡ true → Saved host s')

pub configs_for_topology-Names :
    (cluster : Cluster) (previous : List ShardConfig) (shards : List ShardRef)
    (configs : List ShardConfig)
    → configs_for_topology cluster previous shards ≡ ok configs
    → Names configs shards
unfolding configs_for_topology with_index_generation with_index
configs_for_topology-Names cluster previous [] configs h =
    subst (λ cs. Names cs []) (ok-injective h) (refl, refl)
configs_for_topology-Names cluster previous (shard ∷ shards) configs h =
    let (_, _, h₁) = >>=-eq-ok (cluster.dial shard.address) _ h in
    let (info, _, h₂) =
      >>=-eq-ok
        (map_err (node_error shard.address) (cluster.get_index_info shard.address shard.index_id)) _
        h₁ in
    let (rest, more, h₃) = >>=-eq-ok (configs_for_topology cluster previous shards) _ h₂ in
    let (addresses, ids) = configs_for_topology-Names cluster previous shards rest more in
    subst (λ cs. Names cs (shard ∷ shards)) (ok-injective h₃)
      (ap (◌∷◌ (with_scheme shard.address)) addresses, ap (◌∷◌ (some shard.index_id)) ids)

-- How a move ends: with the shards of its reply published, or with the topology as it was.
abbrev pub Published {ℓ} :
    {A : Type ℓ} → (A → List ShardRef) → (A → ℕ) → Host → Service → Result A × Service → Type 0
Published refs generation host s (ok a, s') = Republished host s (refs a) (generation a) s'
Published refs generation host s (err e, s') = SameMemory s s'
Published refs generation host s (panic, s') = SameMemory s s'

-- What a staged reply says of the entries to publish.
abbrev Announces {ℓ} :
    {A : Type ℓ} → (A → List ShardRef) → (A → ℕ) → Result ((ℕ → A) × List ShardConfig) → Type 0
Announces refs generation (ok (reply, configs)) =
    (g : ℕ) → Names configs (refs (reply g)) × (generation (reply g) ≡ g)
Announces refs generation (err e) = Unit
Announces refs generation panic = Unit

unchanged : (s : Service) → SameMemory s s
unchanged s = record {
  same_generation = refl;
  same_shards = refl;
  same_spares = refl;
  same_pinned = refl;
}

publish-Published {ℓ} :
    {A : Type ℓ} (refs : A → List ShardRef) (generation : A → ℕ) (host : Host) (s : Service)
    (staged : Result ((ℕ → A) × List ShardConfig))
    → Announces refs generation staged
    → Published refs generation host s (publish host staged s)
unfolding publish rebind
publish-Published refs generation host s (err e) h = unchanged s
publish-Published refs generation host s panic h = unchanged s
publish-Published {A = A} refs generation host s (ok (reply, configs)) h =
    settle (rebind_inner host none configs s) (rebind_inner-Rebound host none configs s)
  where
    settle :
        (r : Result ℕ × Service)
        → Rebound host none configs s r
        → Published refs generation host s (do g ← r.0; ok (reply g), r.1)
    settle (ok g, s') (next, _, same, _, table, _, cleared, saved) =
        let (names, told) = h g in
        (
          subst (λ cs. Names cs (refs (reply g))) (sym table) names,
          told ∙ next,
          same ∙ sym told,
          cleared,
          saved,
        )
    settle (err e, s') kept = kept
    settle (panic, s') none_such = absurd none_such

Announces-ok {ℓ} :
    {A : Type ℓ} (refs : A → List ShardRef) (generation : A → ℕ)
    (staged : Result ((ℕ → A) × List ShardConfig))
    → ((reply : ℕ → A) (configs : List ShardConfig)
        → staged ≡ ok (reply, configs)
        → (g : ℕ) → Names configs (refs (reply g)) × (generation (reply g) ≡ g))
    → Announces refs generation staged
Announces-ok refs generation (ok (reply, configs)) h = h reply configs refl
Announces-ok refs generation (err e) h = tt
Announces-ok refs generation panic h = tt

module _ (fleet : Fleet) where
  members-Names :
      (s : Service) (shards : List ShardRef) (configs : List ShardConfig)
      → members fleet s shards ≡ ok configs
      → Names configs shards
  unfolding members
  members-Names s shards configs h =
      let (_, _, h₁) = >>=-eq-ok (flush_before_durable_rebind fleet.cluster s.durable shards) _ h in
      configs_for_topology-Names fleet.cluster s.shards shards configs h₁

  -- A split, however its calls to the nodes turn out, publishes exactly the shards of its reply
  -- under the next generation, or leaves table, generation, spares and binding as they were.
  pub split-Published :
      (host : Host) (req : SplitRequest) (s : Service)
      → Published (λ r. r.shards) (λ r. r.topology_generation) host s (split fleet host req s)
  unfolding split stage_split_members
  split-Published host req s =
      publish-Published (λ r. r.shards) (λ r. r.topology_generation) host s
        (stage_split_members fleet req s)
        (Announces-ok (λ r. r.shards) (λ r. r.topology_generation) (stage_split_members fleet req s)
          announced)
    where
      announced :
          (reply : ℕ → SplitResponse) (configs : List ShardConfig)
          → stage_split_members fleet req s ≡ ok (reply, configs)
          → (g : ℕ) → Names configs (reply g).shards × ((reply g).topology_generation ≡ g)
      announced reply configs h g =
          let (source, _, h₁) = >>=-eq-ok (split_source fleet req.source) _ h in
          let (staged, _, h₂) =
            >>=-eq-ok (stage_split fleet source req.targets req.row_counts) _ h₁ in
          let (entries, named, h₃) = >>=-eq-ok (members fleet s staged.1.0) _ h₂ in
          subst (λ r. Names r.1 (r.0 g).shards × ((r.0 g).topology_generation ≡ g))
            (ok-injective h₃) (members-Names s staged.1.0 entries named, refl)

  -- So does a join, with the one shard of its reply.
  pub join-Published :
      (host : Host) (req : JoinRequest) (s : Service)
      → Published (λ r. r.shard ∷ []) (λ r. r.topology_generation) host s (join fleet host req s)
  unfolding join stage_join_members
  join-Published host req s =
      publish-Published (λ r. r.shard ∷ []) (λ r. r.topology_generation) host s
        (stage_join_members fleet req s)
        (Announces-ok (λ r. r.shard ∷ []) (λ r. r.topology_generation)
          (stage_join_members fleet req s) announced)
    where
      announced :
          (reply : ℕ → JoinResponse) (configs : List ShardConfig)
          → stage_join_members fleet req s ≡ ok (reply, configs)
          → (g : ℕ) → Names configs ((reply g).shard ∷ []) × ((reply g).topology_generation ≡ g)
      announced reply configs h g =
          let (staged, _, h₁) =
            >>=-eq-ok (stage_join fleet (join_sources fleet req s) req.target s.generation) _ h in
          let (entries, named, h₂) = >>=-eq-ok (members fleet s (staged.1 ∷ [])) _ h₁ in
          subst (λ r. Names r.1 ((r.0 g).shard ∷ []) × ((r.0 g).topology_generation ≡ g))
            (ok-injective h₂) (members-Names s (staged.1 ∷ []) entries named, refl)
