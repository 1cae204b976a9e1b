-- ===== src/Coordinator/Topology.antt =====
-- coordinator/mod.rs: the state of `CoordinatorService`: the topology and its generation, the spare
-- pool, the cached binding and the state file; `rebind_inner`, `register_node` and `collection`.
pub mod Rebinding
pub mod Spares
pub mod Bindings
use turbovec_grpc.Prelude.{
  Bool, List, Option, Text, [], any, display, false, if◌then◌else◌, is_empty, ltb, none, not,
  retain, some, text, text_eq, true, u64_mod, ℕ, ◌++◌, ◌+◌, ◌==◌, ◌||◌, ◌∷◌,
}
use turbovec_grpc.Status.{
  Result, aborted, empty_collection, err, internal, invalid_argument, map_err, ok, panic,
  precondition, refuse_if, status, ◌>>=◌, ◌>>◌,
}
use turbovec_grpc.Fallible.{Fallible, done, fail, panics}
use turbovec_grpc.Nodes.{ShardConfig, with_scheme}
use turbovec_grpc.Nodes.Parse.{trim}
use turbovec_grpc.Nodes.State.{Action, Disk, Host, persist_topology}
use turbovec_grpc.Coordinator.{Pinned, Probe, node_error}
use turbovec_grpc.Coordinator.Bind.{bind}
use turbovec_grpc.Coordinator.Probing.{Cluster, probe, probe_all}

-- `durable` says that a state file is configured.
pub record Service : Type 0 where
  pub generation : ℕ
  pub shards : List ShardConfig
  pub spares : List Text
  pub pinned : Option Pinned
  pub durable : Bool
  pub disk : Disk

unfoldable pub serves_address : Text → ShardConfig → Bool
serves_address address shard =
    text_eq shard.address address || any (λ replica. text_eq replica address) shard.replicas

-- The spares that no shard of a new table serves.
unfoldable pub surviving : List ShardConfig → List Text → List Text
surviving shards spares = retain (λ spare. not (any (serves_address spare) shards)) spares

-- The state file is written when there is one.
unfoldable pub persist_if : Host → Bool → ℕ → List ShardConfig → List Text → Action (Unit {0})
persist_if host durable generation shards spares d =
    if durable then persist_topology host generation shards spares d else (done tt, d)

-- The reply to a persistence failure, and the state that a success commits.
unfoldable pub commit_rebind :
    Service → ℕ → List ShardConfig → List Text → Fallible (Unit {0}) × Disk → Result ℕ × Service
commit_rebind s generation shards spares (done u, d) = (
  ok generation,
  record s { generation = generation; shards = shards; spares = spares; pinned = none; disk = d },
)
commit_rebind s generation shards spares (fail e, d) = (
  err (
      status internal
        (text "persist topology generation " ++ (display generation ++ (text ": " ++ e)))),
  record s { disk = d },
)
commit_rebind s generation shards spares (panics, d) = (panic, record s { disk = d })

-- `rebind_inner` with the generation it expects, if any.
unfoldable pub moved : Option ℕ → ℕ → Bool
moved none generation = false
moved (some expected) generation = not (generation == expected)

-- What a rebind against another generation is refused with.
abbrev pub moved_text : Option ℕ → ℕ → Text
moved_text none generation = []
moved_text (some expected) generation =
    text "topology moved from generation "
    ++ (display expected
        ++ (text " to "
            ++ (display generation
                ++ text
                    " while the split was being staged; the staged targets were built for a collection that no longer exists")))

unfoldable pub rebind_inner : Host → Option ℕ → List ShardConfig → Service → Result ℕ × Service
unfolding moved commit_rebind persist_if
rebind_inner host expected shards s =
    if moved expected s.generation
    then (err (status aborted (moved_text expected s.generation)), s)
    else if not (ltb (s.generation + 1) u64_mod)
    then (err (status internal (text "topology generation counter overflow")), s)
    else let spares = surviving shards s.spares in
      commit_rebind s (s.generation + 1) shards spares
        (persist_if host s.durable (s.generation + 1) shards spares s.disk)

unfoldable pub rebind : Host → List ShardConfig → Service → Result ℕ × Service
rebind host shards s = rebind_inner host none shards s

unfoldable pub rebind_if_unchanged : Host → ℕ → List ShardConfig → Service → Result ℕ × Service
rebind_if_unchanged host expected shards s = rebind_inner host (some expected) shards s

pub record RegisterNodeResponse : Type 0 where
  pub member : Bool
  pub topology_generation : ℕ

abbrev contains_text : Text → List Text → Bool
contains_text a xs = any (λ x. text_eq x a) xs

unfoldable pub commit_spares :
    Service → List Text → Fallible (Unit {0}) × Disk → Result RegisterNodeResponse × Service
commit_spares s next (done u, d) = (
  ok (record { member = false; topology_generation = s.generation }),
  record s { spares = next; disk = d },
)
commit_spares s next (fail e, d) =
    (err (status internal (text "persist spare pool: " ++ e)), record s { disk = d })
commit_spares s next (panics, d) = (panic, record s { disk = d })

-- The part of `register_node` behind the dial-back, under the topology lock.
unfoldable pub enroll : Host → Text → Service → Result RegisterNodeResponse × Service
unfolding commit_spares persist_if
enroll host address s =
    if any (serves_address address) s.shards
    then (ok (record { member = true; topology_generation = s.generation }), s)
    else if contains_text address s.spares
    then (ok (record { member = false; topology_generation = s.generation }), s)
    else let next = s.spares ++ address ∷ [] in
      commit_spares s next (persist_if host s.durable s.generation s.shards next s.disk)

unfoldable pub enroll_if :
    Host → Text → Result (Unit {0}) → Service → Result RegisterNodeResponse × Service
enroll_if host address (ok u) s = enroll host address s
enroll_if host address (err e) s = (err e, s)
enroll_if host address panic s = (panic, s)

-- The dial and the call that show the node to be there.
unfoldable pub answers : Cluster → Text → Result (Unit {0})
answers cluster address = do
  cluster.dial address
  _ ← map_err (node_error address) (cluster.list_indexes address)
  ok tt

unfoldable pub register_node :
    Host → Cluster → Text → Service → Result RegisterNodeResponse × Service
unfolding enroll_if answers
register_node host cluster requested s =
    if is_empty (trim requested)
    then (
      err (
          status invalid_argument
            (text "a node registers the address the coordinator should dial it at")),
      s,
    )
    else let address = with_scheme (trim requested) in
      enroll_if host address (answers cluster address) s

-- Every probe of a list, or the first that failed.
unfoldable pub all_probes : List (Result Probe) → Result (List Probe)
all_probes [] = ok []
all_probes (probe ∷ probes) = do p ← probe; ps ← all_probes probes; ok (p ∷ ps)

-- What `collection` builds when nothing is cached, from the topology it read.
unfoldable pub build_binding : Cluster → ℕ → List ShardConfig → Result Pinned
unfolding all_probes
build_binding cluster generation table = do
  refuse_if (is_empty table) (
      precondition empty_collection
        (text "no shards are configured, so there is no collection to serve"))
  shards ← all_probes (probe_all cluster table)
  bind generation shards

-- `*pinned = Some(…)` at the end of `collection`.
unfoldable pub store_binding : Result Pinned → Service → Result Pinned × Service
store_binding (ok p) s = (ok p, record s { pinned = some p })
store_binding (err e) s = (err e, s)
store_binding panic s = (panic, s)

unfoldable pub serve_cached : Cluster → Option Pinned → Service → Result Pinned × Service
unfolding build_binding store_binding
serve_cached cluster (some p) s = (ok p, s)
serve_cached cluster none s = store_binding (build_binding cluster s.generation s.shards) s

-- `collection` with no other call in between.
unfoldable pub collection : Cluster → Service → Result Pinned × Service
unfolding serve_cached
collection cluster s = serve_cached cluster s.pinned s
