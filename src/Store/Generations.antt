-- ===== src/Store/Generations.antt =====
-- store.rs: `persist`, which writes the next generation and moves the `CURRENT` pointer to it, and
-- `restore_all` for one shard directory.
pub mod Outcome
pub mod Restart
pub mod Recovery
pub mod Reopening
pub mod Stuck
pub mod Success
use turbovec_grpc.Prelude.{
  Bool, List, Option, Text, [], display, false, if◌then◌else◌, is_some, ltb, none, not, retain,
  some, text, true, u64_mod, ℕ, ◌++◌, ◌+◌, ◌-◌, ◌==◌, ◌||◌, ◌∷◌,
}
use turbovec_grpc.Fallible.{Fallible, done, fail, fail_if, panics, ◌>>=◌, ◌>>◌}
use turbovec_grpc.Store.{
  Generation, Index, IngestRecord, ShardDir, count_of, manifest_for, validate_loaded_index,
  validate_manifest_header,
}
use turbovec_grpc.Store.Registry.{
  IndexStore, insert_with_id, lookup, put, set_ingest_record, validate_shard_id,
}

-- The stages of a `persist` at which the file system may fail; `prepare` is all up to the rename
-- of the temporary directory.
pub record PersistIo : Type 0 where
  pub prepare : Option Text
  pub rename_generation : Option Text
  pub sync_generation : Option Text
  pub write_pointer : Option Text
  pub rename_pointer : Option Text
  pub sync_pointer : Option Text
  pub removes : ℕ → Bool

unfoldable pub find_generation : ℕ → List (ℕ × Generation) → Option Generation
find_generation g [] = none
find_generation g ((n, c) ∷ gs) = let rest = find_generation g gs in if n == g then some c else rest

-- A stage that fails ends the call with the directory as it is.
unfoldable pub stage :
    Option Text → ShardDir → Fallible (Unit {0}) × ShardDir → Fallible (Unit {0}) × ShardDir
stage (some e) d next = (fail e, d)
stage none d next = next

unfoldable pub write_generation :
    PersistIo → ℕ → Generation → ShardDir → Fallible (Unit {0}) × ShardDir
unfolding stage
write_generation io g content d =
    let renamed = record d { generations = (g, content) ∷ d.generations } in
    let pointed = record renamed { current = some g } in
    stage io.prepare d (
      stage io.rename_generation d (
        stage io.sync_generation renamed (
          stage io.write_pointer renamed
            (stage io.rename_pointer renamed (stage io.sync_pointer pointed (done tt, pointed))))))

-- The generation before the current one is kept.
unfoldable pub cleanup_old_generations : PersistIo → ℕ → ShardDir → ShardDir
cleanup_old_generations io current d = record d {
  generations = retain (λ e. not (ltb e.0 (current - 1)) || not (io.removes e.0)) d.generations;
}

abbrev pub unwrap_or {ℓ} : {A : Type ℓ} → A → Option A → A
unwrap_or a none = a
unwrap_or a (some b) = b

abbrev pub no_generations : ShardDir
no_generations = record { generations = []; current = none }

unfoldable pub persisted :
    PersistIo → Text → ℕ → IndexStore → Fallible (Unit {0}) × ShardDir → Fallible ℕ × IndexStore
unfolding cleanup_old_generations put
persisted io id generation s (done u, d) = (
  done generation,
  record s {
    generations = put id generation s.generations;
    disk = put id (cleanup_old_generations io generation d) s.disk;
  },
)
persisted io id generation s (fail e, d) = (fail e, record s { disk = put id d s.disk })
persisted io id generation s (panics, d) = (panics, record s { disk = put id d s.disk })

-- `persist` of a shard that is open.
unfoldable pub persist_index : PersistIo → Text → Index → IndexStore → Fallible ℕ × IndexStore
unfolding persisted write_generation find_generation lookup
persist_index io id index s =
    let generation = unwrap_or 0 (lookup id s.generations) + 1 in
    let d = unwrap_or no_generations (lookup id s.disk) in
    let labels = lookup id s.labels in
    if not (ltb generation u64_mod)
    then (fail (text "generation counter overflow for shard " ++ id), s)
    else if is_some (find_generation generation d.generations)
    then (fail (text "refusing to overwrite existing generation " ++ display generation), s)
    else persisted io id generation s (
        write_generation io generation
          (record {
            manifest = manifest_for id generation index labels (lookup id s.ingests);
            index = index;
            labels = labels;
          })
          d)

unfoldable pub persist_open : PersistIo → Text → Option Index → IndexStore → Fallible ℕ × IndexStore
unfolding persist_index
persist_open io id none s = (fail (text "unknown shard id " ++ id), s)
persist_open io id (some index) s = persist_index io id index s

unfoldable pub persist : PersistIo → Text → IndexStore → Fallible ℕ × IndexStore
unfolding persist_open lookup
persist io id s =
    if not s.data_root
    then (fail (text "persistence is disabled: TURBOVEC_DATA_DIR is not configured"), s)
    else persist_open io id (lookup id s.inner) s

abbrev pub restore_ingest : Text → Option IngestRecord → IndexStore → IndexStore
restore_ingest id none s = s
restore_ingest id (some r) s = set_ingest_record id r s

-- The labels file holds as many labels as the manifest counts; an unlabelled shard counts none.
unfoldable pub read_labels : Bool → Generation → Fallible (Option (List ℕ))
read_labels true g = do
  fail_if (not (is_some g.labels) || not (count_of g.labels == g.manifest.labels_count))
      (text "read labels")
  done g.labels
read_labels false g = do
  fail_if (not (g.manifest.labels_count == 0))
      (text "unlabelled shard has non-empty label metadata")
  done none

unfoldable pub load_generation : Text → ℕ → Option Generation → IndexStore → Fallible IndexStore
unfolding read_labels
load_generation id generation none s = fail (text "read shard manifest")
load_generation id generation (some g) s = do
  validate_manifest_header g.manifest id generation
  validate_loaded_index g.manifest g.index
  labels ← read_labels g.manifest.labelled g
  s' ← insert_with_id id g.index labels generation s
  done (restore_ingest id g.manifest.last_ingest s')

unfoldable pub restore_current : Text → Option ℕ → ShardDir → IndexStore → Fallible IndexStore
unfolding load_generation find_generation
restore_current id none d s = done s
restore_current id (some g) d s = load_generation id g (find_generation g d.generations) s

-- The body of the loop of `restore_all`.
unfoldable pub restore_shard : Text → ShardDir → IndexStore → Fallible IndexStore
unfolding restore_current
restore_shard id d s = restore_current id d.current d s

-- A restart: every directory in turn, into an empty store.
unfoldable pub restore_dirs : List (Text × ShardDir) → IndexStore → Fallible IndexStore
unfolding restore_shard
restore_dirs [] s = done s
restore_dirs ((id, d) ∷ dirs) s = do
  validate_shard_id id
  s' ← restore_shard id d s
  restore_dirs dirs s'
