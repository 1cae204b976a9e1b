-- ===== src/Tests/Moves.antt =====
-- Splits, joins and autoscaler ticks of the coordinator on two small indexes.
use turbovec_grpc.Prelude.{
  All, List, Option, Text, [], ap, arith, false, if◌then◌else◌, map, none, refl, some, text, true,
  ℕ, ◌&&◌, ◌++◌, ◌+◌, ◌==◌, ◌↔◌, ◌∷◌, ◌≡◌, ◌≤◌,
}
use turbovec_grpc.Status.{Result, err, ok, panic}
use turbovec_grpc.Wire.{Calibration, IndexInfo, ShardRef, positional}
use turbovec_grpc.Nodes.{ShardConfig, new_shard, with_index}
use turbovec_grpc.Nodes.State.{
  FileStep, Host, create_directory, create_temp, read_state, remove_temp, rename_temp,
  sync_directory, sync_temp, write_temp,
}
use turbovec_grpc.Service.Calibration.{calibration_difference, first_difference}
use turbovec_grpc.Service.Export.{
  TurboQuantIndex, block_labels, bound_dim, calibrated, export_block, export_loop, export_range,
  export_rows, rows_per_frame, sent, slice, slots_from,
}
use turbovec_grpc.Fallible.{Fallible, done, fail}
use turbovec_grpc.Service.Transfer.{parts_like, parts_of}
use turbovec_grpc.Service.Import.{
  Parts, check_head, extend, finish, finish_head, formed, head_after, import_index, import_parts,
  new_builder, push, push_frames, refuse_pair,
}
use turbovec_grpc.Service.Blocks.{IsLaidOut, names_of}
use turbovec_grpc.Service.Transfer.{parts_like, parts_of}
use turbovec_grpc.Coordinator.{Pinned, Probe, shard_ref}
use turbovec_grpc.Coordinator.Counts.{even_counts, plan_counts}
use turbovec_grpc.Coordinator.Bind.{
  bind, bind_rows, is_positional, refuse_difference, require_positional,
}
use turbovec_grpc.Coordinator.Probing.{dial_and_probe, index_handle, probe, resolve}
use turbovec_grpc.Coordinator.Topology.{Service, build_binding}
use turbovec_grpc.Coordinator.Moves.{
  Fleet, JoinRequest, SplitRequest, dial_sources, empty_block, forward, import_ranges, join,
  join_plan, join_probes, produce, split, split_targets, stage_join, stage_split,
}
use turbovec_grpc.Coordinator.Moves.Staging.{Landed, Serves, Stored}
use turbovec_grpc.Coordinator.Moves.Partition.{
  HasSource, LandedEach, gather, stage_split-LandedEach,
}
use turbovec_grpc.Coordinator.Moves.Progress.{IsWilling, stage_split_live}
use turbovec_grpc.Coordinator.Moves.Gathering.{shape_of}
use turbovec_grpc.Coordinator.Moves.Union.{stage_join-Landed}
use turbovec_grpc.Coordinator.Moves.Publishing.{Published, join-Published, split-Published}
use turbovec_grpc.Coordinator.Listing.{list_nodes, list_nodes-build_binding}
use turbovec_grpc.Coordinator.Autoscaler.{StagedSplit}

-- Three rows of one dim group, a byte each.
abbrev three_rows : TurboQuantIndex
three_rows = record {
  len = 3;
  dim_opt = some 8;
  bit_width = 1;
  calibration_state = calibrated;
  packed_codes = 10 ∷ 20 ∷ 30 ∷ [];
  scales = 1 ∷ 2 ∷ 3 ∷ [];
  tqplus_shift = [];
  tqplus_scale = [];
}

abbrev stored_rows : Stored
stored_rows = record { index = three_rows; labels = none; dim = 8 }

three_rows-IsLaidOut : IsLaidOut three_rows none 8
unfolding slots_from
three_rows-IsLaidOut = record {
  bound = refl;
  one_scale_each = refl;
  codes_each = refl;
  one_label_each = refl;
  fits = omega arith;
}

abbrev info_of_three : IndexInfo
info_of_three = record {
  index_id = b'i' ∷ [];
  kind = positional;
  dim = 8;
  bit_width = 1;
  len = 3;
  labelled = false;
  generation = 1;
}

abbrev plain_pair : Calibration
plain_pair = record { state = 2; tqplus_shift = []; tqplus_scale = [] }

abbrev handle_or_refuse : Result (ℕ × List ℕ) → Result Text
handle_or_refuse (ok index) = ok (b'n' ∷ [])
handle_or_refuse (err e) = err e
handle_or_refuse panic = panic

-- A library that takes one-bit rows of eight coordinates, and keeps count of them.
abbrev counted_parts : Parts → Fallible ℕ
counted_parts parts =
    if parts.dim == 8 && parts.bit_width == 1 then done parts.rows else fail (text "shape")

-- Nodes that all hold the three rows, and take what the code of `import_rows` accepts.
abbrev busy_nodes : Fleet
busy_nodes = record {
  cluster = record {
    dial = λ a. ok tt;
    list_indexes = λ a. ok (info_of_three ∷ []);
    get_index_info = λ a i. ok info_of_three;
    get_calibration = λ a i. ok plain_pair;
    flush = λ a i. ok 1;
  };
  export_rows = λ a i from count. export_rows three_rows none from count;
  import_rows = λ a frames. handle_or_refuse (import_index counted_parts frames);
}

abbrev probe_of_three : ℕ → Probe
probe_of_three c = record {
  address = c ∷ [];
  index_id = b'i' ∷ [];
  info = info_of_three;
  calibration = plain_pair;
}

serves_three : (c : ℕ) → Serves busy_nodes stored_rows (probe_of_three c)
serves_three c = record {
  laid = three_rows-IsLaidOut;
  dim_told = refl;
  bit_width_told = refl;
  len_told = refl;
  shift_told = refl;
  scale_told = refl;
  exports = λ from count. refl;
}

busy_nodes-IsWilling : IsWilling busy_nodes counted_parts
busy_nodes-IsWilling = record {
  dials = λ a. refl;
  takes = λ t frames index labels h. (b'n' ∷ [], ap handle_or_refuse h);
}

abbrev shard_of_three : ℕ → ShardConfig
shard_of_three c = record {
  address = c ∷ [];
  index_id = some (b'i' ∷ []);
  replicas = [];
  required_generation = none;
}

abbrev two_targets : List Text
two_targets = (b'x' ∷ []) ∷ (b'y' ∷ []) ∷ []

resolved_three : resolve (busy_nodes.cluster) (shard_of_three b'a') ≡ ok (probe_of_three b'a')
unfolding resolve dial_and_probe probe index_handle
resolved_three = refl

planned_three : plan_counts 3 2 [] ≡ ok (2 ∷ 1 ∷ [])
unfolding plan_counts even_counts
planned_three = refl

three_rows-forms :
    (from count : ℕ)
    → from + count ≤ 3
    → (rows : ℕ) × (counted_parts (parts_of three_rows none 8 three_rows-IsLaidOut from count)
        ≡ done rows)
three_rows-forms from count h = (count, refl)

stage_split_live_example :
    (shards : List ShardRef) × (stage_split busy_nodes (shard_of_three b'a') two_targets []
      ≡ ok (probe_of_three b'a', (shards, 2 ∷ 1 ∷ [])))
stage_split_live_example =
    stage_split_live busy_nodes stored_rows (probe_of_three b'a') (serves_three b'a') counted_parts
      busy_nodes-IsWilling three_rows-forms (shard_of_three b'a') two_targets [] (2 ∷ 1 ∷ [])
      resolved_three refl planned_three refl

abbrev new_shards : List ShardRef
new_shards =
    record { address = b'x' ∷ []; index_id = b'n' ∷ [] }
    ∷ record { address = b'y' ∷ []; index_id = b'n' ∷ [] }
    ∷ []

staged_three :
    stage_split busy_nodes (shard_of_three b'a') two_targets []
    ≡ ok (probe_of_three b'a', (new_shards, 2 ∷ 1 ∷ []))
unfolding stage_split split_targets import_ranges produce empty_block forward dial_sources
    require_positional is_positional resolve dial_and_probe probe index_handle plan_counts
    even_counts shard_ref export_rows export_loop export_block export_range slice block_labels
    bound_dim rows_per_frame slots_from sent import_index formed import_parts push_frames push
    check_head refuse_pair extend head_after finish finish_head new_builder calibration_difference
    first_difference
staged_three = refl

stage_split-LandedEach_example :
    (landed : List Parts) × LandedEach busy_nodes new_shards landed
    × All (HasSource busy_nodes stored_rows (probe_of_three b'a') (serves_three b'a')) landed
    × (map (λ p. p.rows) landed ≡ 2 ∷ 1 ∷ [])
    × (gather (λ p. p.packed) landed ≡ 10 ∷ 20 ∷ 30 ∷ [])
    × (gather (λ p. p.scales) landed ≡ 1 ∷ 2 ∷ 3 ∷ [])
    × (gather (λ p. p.labels) landed ≡ names_of three_rows none)
stage_split-LandedEach_example =
    stage_split-LandedEach busy_nodes stored_rows (probe_of_three b'a') (serves_three b'a')
      (shard_of_three b'a') two_targets [] new_shards (2 ∷ 1 ∷ []) staged_three

abbrev pair_of_probes : List Probe
pair_of_probes = probe_of_three b'a' ∷ probe_of_three b'b' ∷ []

abbrev six_bound : Pinned
six_bound = record {
  generation = 1;
  shards = pair_of_probes;
  dim = 8;
  rows = 6;
  calibration = plain_pair;
}

abbrev pair_of_configs : List ShardConfig
pair_of_configs = shard_of_three b'a' ∷ shard_of_three b'b' ∷ []

abbrev joined_shard : ShardRef
joined_shard = record { address = (new_shard (b't' ∷ [])).address; index_id = b'n' ∷ [] }

probed_pair : join_probes busy_nodes pair_of_configs ≡ ok pair_of_probes
unfolding join_probes require_positional is_positional resolve dial_and_probe probe index_handle
probed_pair = refl

staged_join : stage_join busy_nodes pair_of_configs (b't' ∷ []) 1 ≡ ok (six_bound, joined_shard)
unfolding stage_join join_probes join_plan bind bind_rows refuse_difference import_ranges produce
    empty_block forward dial_sources require_positional is_positional resolve dial_and_probe probe
    index_handle shard_ref export_rows export_loop export_block export_range slice block_labels
    bound_dim rows_per_frame slots_from sent import_index formed import_parts push_frames push
    check_head refuse_pair extend head_after finish finish_head new_builder calibration_difference
    first_difference
staged_join = refl

stage_join-Landed_example : Landed busy_nodes joined_shard (
    parts_like
      (shape_of stored_rows)
      6
      (10 ∷ 20 ∷ 30 ∷ 10 ∷ 20 ∷ 30 ∷ [])
      (1 ∷ 2 ∷ 3 ∷ 1 ∷ 2 ∷ 3 ∷ [])
      (names_of three_rows none ++ (names_of three_rows none ++ [])))
stage_join-Landed_example =
    stage_join-Landed busy_nodes pair_of_configs (b't' ∷ []) 1 pair_of_probes stored_rows
      (stored_rows ∷ []) six_bound joined_shard probed_pair
      (serves_three b'a', (serves_three b'b', tt)) (omega arith) staged_join

abbrev quiet_host : Host
quiet_host = record { encode = λ p. b'{' ∷ []; decode = λ bytes. none; fault = λ step. none }

abbrev lone_service : Service
lone_service = record {
  generation = 3;
  shards = shard_of_three b'a' ∷ [];
  spares = (b'y' ∷ []) ∷ [];
  pinned = none;
  durable = true;
  disk = record { state = none; temp = none };
}

abbrev split_three : SplitRequest
split_three = record {
  source = some (record { address = b'a' ∷ []; index_id = b'i' ∷ [] });
  targets = two_targets;
  row_counts = [];
}

split-Published_example :
    Published
      (λ r. r.shards)
      (λ r. r.topology_generation)
      quiet_host
      lone_service
      (split busy_nodes quiet_host split_three lone_service)
split-Published_example = split-Published busy_nodes quiet_host split_three lone_service

abbrev join_pair : JoinRequest
join_pair = record { sources = []; target = b't' ∷ [] }

join-Published_example :
    Published
      (λ r. r.shard ∷ [])
      (λ r. r.topology_generation)
      quiet_host
      lone_service
      (join busy_nodes quiet_host join_pair lone_service)
join-Published_example = join-Published busy_nodes quiet_host join_pair lone_service

abbrev unsynced_fault : FileStep → Option Text
unsynced_fault sync_directory = some []
unsynced_fault read_state = none
unsynced_fault create_directory = none
unsynced_fault create_temp = none
unsynced_fault write_temp = none
unsynced_fault sync_temp = none
unsynced_fault rename_temp = none
unsynced_fault remove_temp = none

abbrev unsynced_host : Host
unsynced_host = record { encode = λ p. b'{' ∷ []; decode = λ bytes. none; fault = unsynced_fault }

abbrev half_shards : List ShardRef
half_shards =
    record { address = b'a' ∷ []; index_id = b'n' ∷ [] }
    ∷ record { address = b'y' ∷ []; index_id = b'n' ∷ [] }
    ∷ []

-- The source is probed under its address with a scheme.
abbrev schemed_probe : Probe
schemed_probe = record (probe_of_three b'a') { address = (new_shard (b'a' ∷ [])).address }

abbrev half_split : StagedSplit
half_split = record { at = 0; source = schemed_probe; staged = half_shards }

abbrev half_table : List ShardConfig
half_table =
    record (with_index (b'a' ∷ []) (b'n' ∷ [])) { required_generation = some 1 }
    ∷ record (with_index (b'y' ∷ []) (b'n' ∷ [])) { required_generation = some 1 }
    ∷ []

list_nodes_example :
    (((list_nodes busy_nodes.cluster lone_service).servable ≡ true)
      × ((list_nodes busy_nodes.cluster lone_service).rows ≡ 3))
    ↔ ((pinned : Pinned) × (build_binding busy_nodes.cluster 3 (shard_of_three b'a' ∷ [])
          ≡ ok pinned)
        × (pinned.rows ≡ 3))
list_nodes_example = list_nodes-build_binding busy_nodes.cluster lone_service 3
