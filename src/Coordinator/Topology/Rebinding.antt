-- ===== src/Coordinator/Topology/Rebinding.antt =====
-- What a rebind does to the service, on success and on each way to fail.
use turbovec_grpc.Prelude.{
  Bool, Bool-cases, List, Option, Text, arith, false, inl, inr, ltb, ltb→lt, none, refl, some, true,
  u64_mod, ℕ, ◌+◌, ◌<◌, ◌≡◌,
}
use turbovec_grpc.Status.{Result, err, ok, panic}
use turbovec_grpc.Fallible.{Fallible, done, fail, panics}
use turbovec_grpc.Nodes.{ShardConfig}
use turbovec_grpc.Nodes.State.{Disk, Host, persist_topology}
use turbovec_grpc.Nodes.Durable.{written}
use turbovec_grpc.Coordinator.Topology.{
  Service, commit_rebind, moved, persist_if, rebind_inner, surviving,
}

-- The parts of the service that its callers see are untouched.
pub record SameMemory (s s' : Service) : Type 0 where
  pub same_generation : s'.generation ≡ s.generation
  pub same_shards : s'.shards ≡ s.shards
  pub same_spares : s'.spares ≡ s.spares
  pub same_pinned : s'.pinned ≡ s.pinned

-- The state file holds the service's topology and spare pool.
abbrev pub Saved : Host → Service → Type 0
Saved host s = s.disk.state ≡ some (host.encode (written host s.generation s.shards s.spares))

-- The outcome of a rebind: the next generation with the new table, nothing bound, the spares that
-- the table does not place, and all of it in the state file; or an error that changes nothing.
abbrev pub Rebound : Host → Option ℕ → List ShardConfig → Service → Result ℕ × Service → Type 0
Rebound host expected shards s (ok g, s') =
    (g ≡ s.generation + 1)
    × (moved expected s.generation ≡ false)
    × (s'.generation ≡ g)
    × (g < u64_mod)
    × (s'.shards ≡ shards)
    × (s'.spares ≡ surviving shards s.spares)
    × (s'.pinned ≡ none)
    × (s.durable ≡ true → Saved host s')
Rebound host expected shards s (err e, s') = SameMemory s s'
Rebound host expected shards s (panic, s') = ⊥

commit_rebind-Rebound :
    (host : Host) (expected : Option ℕ) (shards : List ShardConfig) (s : Service)
    (r : Fallible (Unit {0})) (d : Disk)
    → moved expected s.generation ≡ false
    → s.generation + 1 < u64_mod
    → (r ≡ panics → ⊥)
    → (r ≡ done tt
        → s.durable ≡ true
        → d.state
          ≡ some (host.encode (written host (s.generation + 1) shards (surviving shards s.spares))))
    → Rebound host expected shards s
        (commit_rebind s (s.generation + 1) shards (surviving shards s.spares) (r, d))
unfolding commit_rebind
commit_rebind-Rebound host expected shards s (done u) d m b p h =
    (refl, m, refl, b, refl, refl, refl, λ dur. h refl dur)
commit_rebind-Rebound host expected shards s (fail e) d m b p h = record {
  same_generation = refl;
  same_shards = refl;
  same_spares = refl;
  same_pinned = refl;
}
commit_rebind-Rebound host expected shards s panics d m b p h = p refl

pub persist_if-saves :
    (host : Host) (durable : Bool) (generation : ℕ) (shards : List ShardConfig) (spares : List Text)
    (d : Disk)
    → let (r, d') = persist_if host durable generation shards spares d in
      (r ≡ panics → ⊥)
      × (r ≡ done tt
          → durable ≡ true
          → d'.state ≡ some (host.encode (written host generation shards spares)))
unfolding persist_if persist_topology
persist_if-saves host durable generation shards spares d = (ground arith, ground arith)

-- Every call of `rebind_inner` returns the next generation, with the new table, the spares that it
-- does not place, nothing bound, and all of it in the state file where there is one; or it fails,
-- does not panic, and leaves generation, table, spares and binding as they are.
pub rebind_inner-Rebound :
    (host : Host) (expected : Option ℕ) (shards : List ShardConfig) (s : Service)
    → Rebound host expected shards s (rebind_inner host expected shards s)
unfolding rebind_inner
rebind_inner-Rebound host expected shards s = elim (Bool-cases (moved expected s.generation)) [
  | inl m ↦ rw m unchanged
  | inr m ↦ rw m (elim (Bool-cases (ltb (s.generation + 1) u64_mod)) [
    | inr b ↦ rw b unchanged
    | inl b ↦
        let (p, saves) =
          persist_if-saves host s.durable (s.generation + 1) shards (surviving shards s.spares)
            s.disk in
        rw b (
          commit_rebind-Rebound host expected shards s _ _ m (ltb→lt (s.generation + 1) u64_mod b) p
            saves)
  ])
]
  where
    unchanged : SameMemory s s
    unchanged = record {
      same_generation = refl;
      same_shards = refl;
      same_spares = refl;
      same_pinned = refl;
    }
