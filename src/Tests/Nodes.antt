-- ===== src/Tests/Nodes.antt =====
-- Ingest, transfer and persistence of one node on small inputs.
use turbovec_grpc.Prelude.{
  Text, [], ap, arith, false, length, map, none, refl, some, sym, text, text_eq, true, ℕ, ◌+◌, ◌/◌,
  ◌∙◌, ◌∷◌, ◌≡◌, ◌≢◌, ◌⊎◌,
}
use turbovec_grpc.Status.{ok}
use turbovec_grpc.Fallible.{done, done-injective, fail}
use turbovec_grpc.Wire.{id_map, positional}
use turbovec_grpc.Service.Export.{TurboQuantIndex, calibrated, export_rows}
use turbovec_grpc.Service.Import.{block, import_parts, import_start}
use turbovec_grpc.Service.Blocks.{IsLaidOut}
use turbovec_grpc.Service.Transfer.{import-export, whole}
use turbovec_grpc.Store.{Index, id_map, index_len, positional}
use turbovec_grpc.Store.Registry.{
  IndexStore, labels_fit, lookup, put, remove, set_ingest_record, validate_shard_id,
}
use turbovec_grpc.Store.Generations.{
  PersistIo, find_generation, persist, persist_index, persist_open, persisted, restore_shard, stage,
  write_generation,
}
use turbovec_grpc.Store.Generations.Restart.{dir_of, next_generation}
use turbovec_grpc.Store.Generations.Recovery.{HasCurrent}
use turbovec_grpc.Store.Generations.Reopening.{IsFresh, IsOpen, Reopens, persist-Recovers}
use turbovec_grpc.Store.Generations.Success.{persist_live}
use turbovec_grpc.Store.Generations.Stuck.{Persistable, at_pointer, persist-stuck}
use turbovec_grpc.Service.Ingest.{
  AddRequest, AddResponse, Env, add, add_chunk, add_staged, apply, combine, fresh_add, handle,
  locked_add, not_positional_ids, other_len, persist_reply, record_of, response, stage_add,
  validate_operation, validate_shape, validate_vector_frame,
}
use turbovec_grpc.Service.Ingest.Replay.{Grows, add-replay}

-- Two rows of eight coordinates, one bit each.
abbrev two_rows : TurboQuantIndex
two_rows = record {
  len = 2;
  dim_opt = some 8;
  bit_width = 1;
  calibration_state = calibrated;
  packed_codes = 5 ∷ 6 ∷ [];
  scales = 0x3f800000 ∷ 0x40000000 ∷ [];
  tqplus_shift = 1 ∷ [];
  tqplus_scale = 2 ∷ [];
}

two_rows-IsLaidOut : IsLaidOut two_rows (some (70 ∷ 71 ∷ [])) 8
two_rows-IsLaidOut = record {
  bound = refl;
  one_scale_each = refl;
  codes_each = refl;
  one_label_each = refl;
  fits = omega arith;
}

import-export_example :
    ((export_rows two_rows (some (70 ∷ 71 ∷ [])) 0 0).1 ≡ ok tt)
    × (import_parts (import_start 2 ∷ map block (export_rows two_rows (some (70 ∷ 71 ∷ [])) 0 0).0)
        ≡ ok (whole two_rows (some (70 ∷ 71 ∷ [])) 8 two_rows-IsLaidOut))
import-export_example = import-export two_rows (some (70 ∷ 71 ∷ [])) 8 two_rows-IsLaidOut

abbrev sound_io : PersistIo
sound_io = record {
  prepare = none;
  rename_generation = none;
  sync_generation = none;
  write_pointer = none;
  rename_pointer = none;
  sync_pointer = none;
  removes = λ g. true;
}

abbrev failing_io : PersistIo
failing_io = record sound_io { write_pointer = some (b'!' ∷ []) }

abbrev id_x : Text
id_x = b'x' ∷ []

abbrev one_open : IndexStore
one_open = record {
  data_root = true;
  inner = (id_x, positional two_rows) ∷ [];
  labels = [];
  generations = (id_x, 0) ∷ [];
  ingests = [];
  disk = [];
}

abbrev empty_store : IndexStore
empty_store = record {
  data_root = true;
  inner = [];
  labels = [];
  generations = [];
  ingests = [];
  disk = [];
}

is_open : lookup id_x one_open.inner ≡ some (positional two_rows)
unfolding lookup text_eq
is_open = refl

one_open-IsOpen : IsOpen id_x (positional two_rows) one_open
unfolding lookup validate_shard_id labels_fit text_eq text
one_open-IsOpen = record {
  open_index = is_open;
  valid_id = refl;
  label_each = refl;
  has_current = λ g e. absurd cc;
}

empty_store-IsFresh : IsFresh id_x empty_store
unfolding lookup
empty_store-IsFresh = record { no_index = refl; no_labels = refl; no_ingest = refl }

persist-Recovers_example :
    let (r, s') = persist failing_io id_x one_open in
    HasCurrent (dir_of id_x s')
    × (((restore_shard id_x (dir_of id_x s') empty_store
            ≡ restore_shard id_x (dir_of id_x one_open) empty_store)
          × ((n : ℕ) → r ≢ done n))
        ⊎ ((t : IndexStore) × (restore_shard id_x (dir_of id_x s') empty_store ≡ done t)
            × Reopens id_x one_open t))
persist-Recovers_example =
    persist-Recovers failing_io id_x (positional two_rows) empty_store one_open one_open-IsOpen
      empty_store-IsFresh

one_open-Persistable : Persistable id_x (positional two_rows) one_open
unfolding lookup text_eq
one_open-Persistable = record { open_index = is_open; durable = refl; counts = omega arith }

free : find_generation (next_generation id_x one_open) (dir_of id_x one_open).generations ≡ none
unfolding lookup find_generation
free = refl

persist-stuck_example :
    let s₁ = (persist failing_io id_x one_open).1 in
    ((persist failing_io id_x one_open).0 ≡ fail (b'!' ∷ []))
    × ((e : Text) × (persist sound_io id_x s₁ ≡ (fail e, s₁)))
persist-stuck_example =
    persist-stuck failing_io sound_io id_x (positional two_rows) one_open one_open-Persistable free
      refl refl (b'!' ∷ []) (at_pointer refl refl)

-- A library that keeps count of its rows.
abbrev longer : Index → ℕ → Index
longer (positional i) n = positional (record i { len = i.len + n })
longer (id_map i) n = id_map (record i { id_len = i.id_len + n })

abbrev counting : Env
counting = record {
  library = record { add_2d = λ index vectors dim ids. done (longer index (length vectors / dim)) };
  io = sound_io;
  max_vector_coordinates_per_frame = 100;
}

longer-len : (i : Index) (n : ℕ) → index_len (longer i n) ≡ index_len i + n
unfolding index_len
longer-len (positional i) n = refl
longer-len (id_map i) n = refl

counting-Grows : Grows counting
counting-Grows index grown vectors dim ids h =
    ap index_len (sym (done-injective h)) ∙ longer-len index (length vectors / dim)

abbrev one_more : AddRequest
one_more = record {
  index_id = id_x;
  dim = 2;
  vectors = 0x3f800000 ∷ 0x3f800000 ∷ [];
  ids = [];
  operation_id = b'o' ∷ [];
  expected_len = some 2;
  expected_rows = 1;
}

abbrev one_added : AddResponse
one_added = record {
  added = 1;
  len = 3;
  generation = 1;
  replayed = false;
  operation_id = b'o' ∷ [];
}

one_more-staged :
    stage_add counting (one_more ∷ []) one_open ≡ ok (one_more, (1, positional two_rows))
unfolding stage_add combine validate_shape validate_operation handle validate_vector_frame lookup
    text_eq
one_more-staged = refl

one_more-added : (add counting (one_more ∷ []) one_open).0 ≡ ok one_added
unfolding add stage_add combine validate_shape validate_operation handle validate_vector_frame
    lookup text_eq add_staged locked_add fresh_add other_len index_len apply add_chunk
    not_positional_ids record_of set_ingest_record put remove persist persist_open persist_index
    find_generation persisted write_generation stage persist_reply response
one_more-added = refl

add-replay_example :
    add counting (one_more ∷ []) (add counting (one_more ∷ []) one_open).1
    ≡ (ok (record one_added { replayed = true }), (add counting (one_more ∷ []) one_open).1)
add-replay_example =
    add-replay counting counting-Grows (one_more ∷ []) one_open one_more 1 (positional two_rows)
      one_added one_more-staged refl one_more-added refl

persist_live_example :
    let (r, s') = persist sound_io id_x one_open in
    (r ≡ done (next_generation id_x one_open))
    × ((t : IndexStore) × (restore_shard id_x (dir_of id_x s') empty_store ≡ done t)
        × Reopens id_x one_open t)
persist_live_example =
    persist_live sound_io id_x (positional two_rows) empty_store one_open one_open-IsOpen
      one_open-Persistable empty_store-IsFresh free
      (record {
        prepares = refl;
        renames_generation = refl;
        syncs_generation = refl;
        writes_pointer = refl;
        renames_pointer = refl;
        syncs_pointer = refl;
      })
