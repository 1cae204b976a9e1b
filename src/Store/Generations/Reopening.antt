-- ===== src/Store/Generations/Reopening.antt =====
-- store.rs: any `persist` of an open shard leaves a directory that a restart can read.
use turbovec_grpc.Prelude.{
  Bool, Bool-cases, List, Option, Text, display, false, if◌then◌else◌, inl, inr, is_some, ltb, none,
  not, refl, some, some-injective, subst, sym, text, true, u64_mod, ℕ, ◌++◌, ◌==◌, ◌∙◌, ◌∷◌, ◌≡◌,
  ◌≢◌, ◌⊎◌,
}
use turbovec_grpc.Fallible.{Fallible, done, fail, panics}
use turbovec_grpc.Store.{Generation, Index, IngestRecord, ShardDir}
use turbovec_grpc.Store.Registry.{
  IndexStore, Map, insert_with_id, labels_fit, lookup, put, put_labels, set_ingest_record,
  validate_shard_id,
}
use turbovec_grpc.Store.Generations.{
  PersistIo, cleanup_old_generations, find_generation, persist, persist_index, persist_open,
  persisted, restore_ingest, restore_shard, stage, write_generation,
}
use turbovec_grpc.Store.Generations.Restart.{
  Written, content, dir_of, find-same, kept-current, lookup-put, next_generation, reopened,
  write_generation-Written,
}
use turbovec_grpc.Store.Generations.Recovery.{
  HasCurrent, cleaned-current, not_found, persist-Recoverable,
}

-- A store that knows nothing of a shard.
pub record IsFresh (id : Text) (t : IndexStore) : Type 0 where
  pub no_index : lookup id t.inner ≡ none
  pub no_labels : lookup id t.labels ≡ none
  pub no_ingest : lookup id t.ingests ≡ none

-- The store `t` holds a shard as it is open in `s`, at its next generation.
pub record Reopens (id : Text) (s t : IndexStore) : Type 0 where
  pub same_index : lookup id t.inner ≡ lookup id s.inner
  pub same_labels : lookup id t.labels ≡ lookup id s.labels
  pub same_ingest : lookup id t.ingests ≡ lookup id s.ingests
  pub next : lookup id t.generations ≡ some (next_generation id s)

lookup-put_labels :
    (id : Text) (o : Option (List ℕ)) (m : Map (List ℕ))
    → lookup id m ≡ none
    → lookup id (put_labels id o m) ≡ o
unfolding put_labels
lookup-put_labels id none m h = h
lookup-put_labels id (some labels) m h = lookup-put id labels m

with_ingest :
    (id : Text) (s t : IndexStore) (r : Option IngestRecord)
    → lookup id s.ingests ≡ r
    → lookup id t.ingests ≡ none
    → lookup id t.inner ≡ lookup id s.inner
    → lookup id t.labels ≡ lookup id s.labels
    → lookup id t.generations ≡ some (next_generation id s)
    → Reopens id s (restore_ingest id r t)
unfolding set_ingest_record
with_ingest id s t none e f a b c = record {
  same_index = a;
  same_labels = b;
  same_ingest = f ∙ sym e;
  next = c;
}
with_ingest id s t (some r) e f a b c = record {
  same_index = a;
  same_labels = b;
  same_ingest = lookup-put id r t.ingests ∙ sym e;
  next = c;
}

reopened-Reopens :
    (id : Text) (index : Index) (fresh s : IndexStore)
    → lookup id s.inner ≡ some index
    → validate_shard_id id ≡ done tt
    → labels_fit (lookup id s.labels) index ≡ true
    → IsFresh id fresh
    → (t : IndexStore) × (reopened id
          (next_generation id s)
          index
          (lookup id s.labels)
          (lookup id s.ingests)
          fresh
        ≡ done t)
      × Reopens id s t
unfolding reopened insert_with_id
reopened-Reopens id index fresh s o valid fits f =
    let t : IndexStore = record fresh {
      inner = put id index fresh.inner;
      labels = put_labels id (lookup id s.labels) fresh.labels;
      generations = put id (next_generation id s) fresh.generations;
    } in
    (
      restore_ingest id (lookup id s.ingests) t,
      rw (valid, fits, f.no_index) refl,
      with_ingest id s t (lookup id s.ingests) refl f.no_ingest
          (lookup-put id index fresh.inner ∙ sym o)
          (lookup-put_labels id (lookup id s.labels) fresh.labels f.no_labels)
          (lookup-put id (next_generation id s) fresh.generations),
    )

stage-HasCurrent :
    (o : Option Text) (d : ShardDir) (next : Fallible (Unit {0}) × ShardDir)
    → HasCurrent d
    → HasCurrent next.1
    → HasCurrent (stage o d next).1
unfolding stage
stage-HasCurrent none d next h k = k
stage-HasCurrent (some e) d next h k = h

renamed-HasCurrent :
    (g : ℕ) (c : Generation) (d : ShardDir)
    → HasCurrent d
    → HasCurrent (record d { generations = (g, c) ∷ d.generations })
unfolding find_generation
renamed-HasCurrent g c d h n e = elim (Bool-cases (g == n)) [
  | inl same ↦ (c, rw same refl)
  | inr other ↦ let (c', f) = h n e in (c', rw other f)
]

write_generation-HasCurrent :
    (io : PersistIo) (g : ℕ) (c : Generation) (d : ShardDir)
    → HasCurrent d
    → HasCurrent (write_generation io g c d).1
unfolding write_generation
write_generation-HasCurrent io g c d h =
    let renamed : ShardDir = record d { generations = (g, c) ∷ d.generations } in
    let there : HasCurrent renamed = renamed-HasCurrent g c d h in
    let pointed : HasCurrent (record renamed { current = some g }) = λ n e. (
      c,
      subst (λ m. find_generation m ((g, c) ∷ d.generations) ≡ some c) (some-injective e)
          (find-same g c d.generations),
    ) in
    stage-HasCurrent io.prepare d _ h (
      stage-HasCurrent io.rename_generation d _ h (
        stage-HasCurrent io.sync_generation renamed _ there (
          stage-HasCurrent io.write_pointer renamed _ there (
            stage-HasCurrent io.rename_pointer renamed _ there
              (stage-HasCurrent io.sync_pointer _ _ pointed pointed)))))

persisted-HasCurrent :
    (io : PersistIo) (id : Text) (g : ℕ) (c : Generation) (d : ShardDir) (s fresh : IndexStore)
    (r : Fallible (Unit {0})) (d' : ShardDir)
    → Written id g c d fresh (r, d')
    → HasCurrent d'
    → HasCurrent (dir_of id (persisted io id g s (r, d')).1)
unfolding persisted
persisted-HasCurrent io id g c d s fresh (done u) d' (inl (e, h)) k = absurd (h refl)
persisted-HasCurrent io id g c d s fresh (done u) d' (inr (e, (gs, f))) k =
    rw (lookup-put id (cleanup_old_generations io g d') s.disk) (λ n at. (
      c,
      subst (λ m. find_generation m (cleanup_old_generations io g d').generations ≡ some c)
          (some-injective (sym e ∙ (sym (cleaned-current io g d') ∙ at)))
          (kept-current io g c gs d' f),
    ))
persisted-HasCurrent io id g c d s fresh (fail x) d' w k = rw (lookup-put id d' s.disk) k
persisted-HasCurrent io id g c d s fresh panics d' w k = rw (lookup-put id d' s.disk) k

guarded-HasCurrent :
    (id : Text) (s : IndexStore) (b : Bool) (e : Text) (next : Fallible ℕ × IndexStore)
    → HasCurrent (dir_of id s)
    → (b ≡ false → HasCurrent (dir_of id next.1))
    → HasCurrent (dir_of id (if b then (fail e, s) else next).1)
guarded-HasCurrent id s true e next h k = h
guarded-HasCurrent id s false e next h k = k refl

persist_index-HasCurrent :
    (io : PersistIo) (id : Text) (index : Index) (s : IndexStore)
    → HasCurrent (dir_of id s)
    → HasCurrent (dir_of id (persist_index io id index s).1)
unfolding persist_index
persist_index-HasCurrent io id index s h =
    let g = next_generation id s in
    let c = content id g index (lookup id s.labels) (lookup id s.ingests) in
    let w = write_generation io g c (dir_of id s) in
    let refused = text "refusing to overwrite existing generation " ++ display g in
    let taken = is_some (find_generation g (dir_of id s).generations) in
    guarded-HasCurrent id s (not (ltb g u64_mod))
      (text "generation counter overflow for shard " ++ id)
      (if taken then (fail refused, s) else persisted io id g s w) h
      (λ small. guarded-HasCurrent id s taken refused (persisted io id g s w) h (λ free.
        persisted-HasCurrent io id g c (dir_of id s) s s w.0 w.1
          (write_generation-Written io id g c (dir_of id s) s (not_found g (dir_of id s) h free))
          (write_generation-HasCurrent io g c (dir_of id s) h)))

persist_open-HasCurrent :
    (io : PersistIo) (id : Text) (o : Option Index) (s : IndexStore)
    → HasCurrent (dir_of id s)
    → HasCurrent (dir_of id (persist_open io id o s).1)
unfolding persist_open
persist_open-HasCurrent io id none s h = h
persist_open-HasCurrent io id (some index) s h = persist_index-HasCurrent io id index s h

persist-HasCurrent :
    (io : PersistIo) (id : Text) (s : IndexStore)
    → HasCurrent (dir_of id s)
    → HasCurrent (dir_of id (persist io id s).1)
unfolding persist
persist-HasCurrent io id s h =
    guarded-HasCurrent id s (not s.data_root)
      (text "persistence is disabled: TURBOVEC_DATA_DIR is not configured")
      (persist_open io id (lookup id s.inner) s) h
      (λ durable. persist_open-HasCurrent io id (lookup id s.inner) s h)

-- A shard that is open under a valid identifier, with a label for each row where it has labels, and
-- whose `CURRENT` pointer, where there is one, names a generation that is there.
pub record IsOpen (id : Text) (index : Index) (s : IndexStore) : Type 0 where
  pub open_index : lookup id s.inner ≡ some index
  pub valid_id : validate_shard_id id ≡ done tt
  pub label_each : labels_fit (lookup id s.labels) index ≡ true
  pub has_current : HasCurrent (dir_of id s)

-- At whatever stage a `persist` of an open shard fails, or when it succeeds, the pointer still names
-- a generation that is there, so that the same holds of the next call. A restart, into a store that
-- knows nothing of the shard, then either returns what it would have returned before the call, and
-- the call has failed; or it succeeds and has the shard as it is open, with its labels, its ingest
-- record and its next generation.
pub persist-Recovers :
    (io : PersistIo) (id : Text) (index : Index) (fresh s : IndexStore)
    → IsOpen id index s
    → IsFresh id fresh
    → let (r, s') = persist io id s in
      HasCurrent (dir_of id s')
      × (((restore_shard id (dir_of id s') fresh ≡ restore_shard id (dir_of id s) fresh)
            × ((n : ℕ) → r ≢ done n))
          ⊎ ((t : IndexStore) × (restore_shard id (dir_of id s') fresh ≡ done t) × Reopens id s t))
persist-Recovers io id index fresh s v f = (
  persist-HasCurrent io id s v.has_current,
  elim (persist-Recoverable io id index fresh s v.open_index v.has_current) [
    | inl before ↦ inl before
    | inr now ↦
        let (t, returned, reopens) =
          reopened-Reopens id index fresh s v.open_index v.valid_id v.label_each f in
        inr (t, now ∙ returned, reopens)
  ],
)
