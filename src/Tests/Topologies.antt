-- ===== src/Tests/Topologies.antt =====
-- Rebinds, registrations and bindings of coordinator/mod.rs on small inputs.
use turbovec_grpc.Prelude.{
  All, List, Text, [], contains, false, is_empty, none, refl, some, strip_prefix, text, text_eq,
  true, ℕ, ◌++◌, ◌+◌, ◌∷◌, ◌≡◌, ◌≢◌, ◌⊎◌,
}
use turbovec_grpc.Status.{ok}
use turbovec_grpc.Fallible.{done}
use turbovec_grpc.Wire.{IndexInfo, positional}
use turbovec_grpc.Service.Calibration.{calibration_difference, first_difference}
use turbovec_grpc.Nodes.{NodeTable, ShardConfig, new_shard, with_scheme}
use turbovec_grpc.Nodes.Parse.{
  parse, parse_entries, parse_entry, parse_fields, parse_generation, pieces, refuse_extra, shard_of,
  split_entries, split_replicas, strip_comment, trim, trim_end, trim_start, with_addresses, words,
}
use turbovec_grpc.Nodes.Comments.{parse-comment_comma}
use turbovec_grpc.Nodes.WellFormed.{IsWellFormed, parse-IsWellFormed}
use turbovec_grpc.Nodes.State.{
  Host, PersistedTopology, attempt, persist_topology, remove_temp, write_and_rename,
}
use turbovec_grpc.Nodes.Durable.{persist_topology-atomic}
use turbovec_grpc.Coordinator.{Pinned}
use turbovec_grpc.Coordinator.Bind.{
  bind, bind_rows, generation_required, refuse_difference, validate_required_generation,
}
use turbovec_grpc.Coordinator.Probing.{
  Cluster, configs_for_topology, dial_and_probe, fail_over, first_replica, flush_all,
  flush_before_durable_rebind, index_handle, old_replicas, or_fail_over, probe, probe_all,
  probe_for_search, replica_if_current, resolve, sole_index,
}
use turbovec_grpc.Coordinator.Topology.{
  RegisterNodeResponse, Service, all_probes, build_binding, collection, commit_rebind,
  commit_spares, enroll, persist_if, rebind, rebind_inner, serves_address, store_binding,
}
use turbovec_grpc.Coordinator.Topology.Rebinding.{Rebound, rebind_inner-Rebound}
use turbovec_grpc.Coordinator.Topology.Spares.{PoolOk, enroll_idem, rebind_inner-PoolOk}
use turbovec_grpc.Coordinator.Topology.Bindings.{IsFresh, collection-IsFresh, store_binding_stale}

abbrev shard_at : ℕ → ShardConfig
shard_at c = record {
  address = c ∷ [];
  index_id = some (b'i' ∷ []);
  replicas = [];
  required_generation = none;
}

-- A file system that never fails, and a topology codec for the files of these tests: one topology
-- is all it knows.
abbrev saved_topology : PersistedTopology
saved_topology = record {
  version = 1;
  generation = 4;
  shards = shard_at b'c' ∷ [];
  spares = (b's' ∷ []) ∷ [];
}

abbrev sound_host : Host
sound_host = record {
  encode = λ p. b'{' ∷ [];
  decode = λ s. some saved_topology;
  fault = λ step. none;
}

abbrev old_service : Service
old_service = record {
  generation = 3;
  shards = shard_at b'a' ∷ [];
  spares = (b'c' ∷ []) ∷ (b's' ∷ []) ∷ [];
  pinned = none;
  durable = true;
  disk = record { state = none; temp = none };
}

abbrev new_table : List ShardConfig
new_table = shard_at b'c' ∷ []

rebind_example :
    Rebound sound_host none new_table old_service
      (rebind_inner sound_host none new_table old_service)
rebind_example = rebind_inner-Rebound sound_host none new_table old_service

old_service-PoolOk : PoolOk old_service
unfolding serves_address text_eq
old_service-PoolOk = record { idle = (refl, (refl, tt)); distinct = ((refl, tt), (tt, tt)) }

rebind-pool_example : PoolOk (rebind_inner sound_host none new_table old_service).1
rebind-pool_example = rebind_inner-PoolOk sound_host none new_table old_service old_service-PoolOk

abbrev as_spare : RegisterNodeResponse
as_spare = record { member = false; topology_generation = 3 }

enrolled : (enroll sound_host (b't' ∷ []) old_service).0 ≡ ok as_spare
unfolding enroll commit_spares persist_if persist_topology write_and_rename attempt serves_address
    text_eq
enrolled = refl

enroll_idem_example :
    enroll sound_host (b't' ∷ []) (enroll sound_host (b't' ∷ []) old_service).1
    ≡ (ok as_spare, (enroll sound_host (b't' ∷ []) old_service).1)
enroll_idem_example = enroll_idem sound_host (b't' ∷ []) old_service as_spare enrolled

abbrev info_of_ten : IndexInfo
info_of_ten = record {
  index_id = b'i' ∷ [];
  kind = positional;
  dim = 8;
  bit_width = 4;
  len = 10;
  labelled = false;
  generation = 0;
}

-- Nodes that all hold the same one index.
abbrev uniform : Cluster
uniform = record {
  dial = λ a. ok tt;
  list_indexes = λ a. ok (info_of_ten ∷ []);
  get_index_info = λ a i. ok info_of_ten;
  get_calibration = λ a i. ok (record { state = 2; tqplus_shift = []; tqplus_scale = [] });
  flush = λ a i. ok 1;
}

abbrev old_binding : Pinned
old_binding = record {
  generation = 3;
  shards =
      record {
        address = b'a' ∷ [];
        index_id = b'i' ∷ [];
        info = info_of_ten;
        calibration = record { state = 2; tqplus_shift = []; tqplus_scale = [] };
      }
      ∷ [];
  dim = 8;
  rows = 10;
  calibration = record { state = 2; tqplus_shift = []; tqplus_scale = [] };
}

built : build_binding uniform 3 old_service.shards ≡ ok old_binding
unfolding build_binding all_probes bind bind_rows refuse_difference calibration_difference
    first_difference validate_required_generation generation_required sole_index index_handle probe
    dial_and_probe resolve replica_if_current first_replica fail_over or_fail_over probe_for_search
    probe_all flush_all flush_before_durable_rebind old_replicas configs_for_topology
built = refl

moved_on : (rebind sound_host new_table old_service).0 ≡ ok 4
unfolding rebind rebind_inner commit_rebind persist_if persist_topology write_and_rename attempt
moved_on = refl

collection-IsFresh_example :
    IsFresh (collection uniform old_service).1
    × ((p : Pinned) → (collection uniform old_service).0 ≡ ok p → p.generation ≡ 3)
collection-IsFresh_example = collection-IsFresh uniform old_service (λ p h. absurd cc)

store_binding_stale_example :
    (collection uniform
        (store_binding (ok old_binding) (rebind sound_host new_table old_service).1).1
      ≡ (
        ok old_binding,
        (store_binding (ok old_binding) (rebind sound_host new_table old_service).1).1,
      ))
    × (old_binding.generation ≡ old_service.generation)
    × ((store_binding (ok old_binding) (rebind sound_host new_table old_service).1).1.generation
        ≡ 3 + 1)
store_binding_stale_example =
    store_binding_stale sound_host uniform old_service new_table 4 old_binding built moved_on

abbrev two_lines : Text
two_lines = b'a' ∷ 10 ∷ b'b' ∷ []

abbrev two_entries : NodeTable
two_entries = record {
  shards =
      record {
        address = text "http://" ++ b'a' ∷ [];
        index_id = none;
        replicas = [];
        required_generation = none;
      }
      ∷ record {
        address = text "http://" ++ b'b' ∷ [];
        index_id = none;
        replicas = [];
        required_generation = none;
      }
      ∷ [];
}

two_lines-parse : parse two_lines ≡ done two_entries
unfolding text new_shard with_scheme strip_prefix contains pieces split_entries strip_comment
    trim_start trim_end trim words split_replicas parse_generation refuse_extra shard_of
    with_addresses parse_fields parse_entry parse_entries parse
two_lines-parse = refl

parse-IsWellFormed_example :
    (is_empty two_entries.shards ≡ false) × All IsWellFormed two_entries.shards
parse-IsWellFormed_example = parse-IsWellFormed two_lines {table = two_entries} two_lines-parse

persist_topology-atomic_example :
    let (r, d') = persist_topology sound_host 4 new_table [] old_service.disk in
    (((d'.state ≡ none) × (r ≢ done tt)) ⊎ (d'.state ≡ some (b'{' ∷ [])))
    × ((d'.temp ≡ none)
        ⊎ ((d'.temp ≡ none) ⊎ ((r ≢ done tt) × (sound_host.fault remove_temp ≢ none))))
persist_topology-atomic_example = persist_topology-atomic sound_host 4 new_table [] old_service.disk

parse-comment_comma_example :
    parse (b'a' ∷ b'#' ∷ b'x' ∷ b',' ∷ b'y' ∷ []) ≡ parse (b'a' ∷ b',' ∷ b'y' ∷ [])
parse-comment_comma_example = parse-comment_comma (b'a' ∷ []) (b'x' ∷ []) (b'y' ∷ []) (refl, tt)
