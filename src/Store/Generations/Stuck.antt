-- ===== src/Store/Generations/Stuck.antt =====
-- A `persist` that fails between its two renames.
use turbovec_grpc.Prelude.{
  Bool, Option, Text, ap, display, false, if◌then◌else◌, is_some, ltb, lt→ltb, none, not, refl,
  some, subst, sym, text, true, u64_mod, ℕ, ◌++◌, ◌<◌, ◌∙◌, ◌∷◌, ◌≡◌,
}
use turbovec_grpc.Fallible.{Fallible, fail}
use turbovec_grpc.Store.{Generation, Index, ShardDir}
use turbovec_grpc.Store.Registry.{IndexStore, lookup, put}
use turbovec_grpc.Store.Generations.{
  PersistIo, find_generation, no_generations, persist, persist_index, persist_open, persisted,
  stage, unwrap_or, write_generation,
}
use turbovec_grpc.Store.Generations.Restart.{
  content, dir_of, find-same, lookup-put, next_generation,
}

pub else_of {ℓ} : {A : Type ℓ} (x y : A) (b : Bool) → b ≡ false → (if b then x else y) ≡ y
else_of x y true h = absurd cc
else_of x y false h = refl

then_of {ℓ} : {A : Type ℓ} (x y : A) (b : Bool) → b ≡ true → (if b then x else y) ≡ x
then_of x y true h = refl
then_of x y false h = absurd cc

pub stage-none :
    (o : Option Text) (d : ShardDir) (next : Fallible (Unit {0}) × ShardDir)
    → o ≡ none
    → stage o d next ≡ next
unfolding stage
stage-none none d next h = refl
stage-none (some e) d next h = absurd cc

stage-some :
    (o : Option Text) (d : ShardDir) (next : Fallible (Unit {0}) × ShardDir) (e : Text)
    → o ≡ some e
    → stage o d next ≡ (fail e, d)
unfolding stage
stage-some o d next e h = rw h refl

-- An open shard of a durable store, whose generation counter can move on.
pub record Persistable (id : Text) (index : Index) (s : IndexStore) : Type 0 where
  pub open_index : lookup id s.inner ≡ some index
  pub durable : s.data_root ≡ true
  pub counts : next_generation id s < u64_mod

pub live_content : Text → Index → IndexStore → Generation
live_content id index s =
    content id (next_generation id s) index (lookup id s.labels) (lookup id s.ingests)

pub to_index :
    (io : PersistIo) (id : Text) (index : Index) (s : IndexStore)
    → Persistable id index s
    → persist io id s ≡ (
        if is_some (find_generation (next_generation id s) (dir_of id s).generations)
        then (
          fail
              (text "refusing to overwrite existing generation " ++ display (next_generation id s)),
          s,
        )
        else persisted io id
            (next_generation id s)
            s
            (write_generation io (next_generation id s) (live_content id index s) (dir_of id s)))
unfolding persist persist_open persist_index live_content
to_index io id index s v =
    else_of _ _ (not s.data_root) (rw v.durable refl)
    ∙ ap (λ o. persist_open io id o s) v.open_index
    ∙ else_of _ _ (not (ltb (next_generation id s) u64_mod))
        (rw (lt→ltb (next_generation id s) u64_mod v.counts) refl)

refused :
    (io : PersistIo) (id : Text) (index : Index) (s : IndexStore) (c : Generation)
    → Persistable id index s
    → find_generation (next_generation id s) (dir_of id s).generations ≡ some c
    → (e : Text) × (persist io id s ≡ (fail e, s))
refused io id index s c v h = (
  _,
  to_index io id index s v
      ∙ then_of _ _ (is_some (find_generation (next_generation id s) (dir_of id s).generations))
          (rw h refl),
)

-- The first fault behind the rename of the generation directory and up to that of the pointer.
pub data FailsBetween (io : PersistIo) (fault : Text) : Type 0 where
  at_sync : io.sync_generation ≡ some fault → FailsBetween io fault
  at_pointer : io.sync_generation ≡ none → io.write_pointer ≡ some fault → FailsBetween io fault
  at_rename :
      io.sync_generation ≡ none
      → io.write_pointer ≡ none
      → io.rename_pointer ≡ some fault
      → FailsBetween io fault

write_generation-between :
    (io : PersistIo) (fault : Text) (g : ℕ) (c : Generation) (d : ShardDir)
    → io.prepare ≡ none
    → io.rename_generation ≡ none
    → FailsBetween io fault
    → write_generation io g c d ≡ (fail fault, record d { generations = (g, c) ∷ d.generations })
unfolding write_generation
write_generation-between io fault g c d a b (at_sync e) =
    stage-none io.prepare d _ a
    ∙ stage-none io.rename_generation d _ b
    ∙ stage-some io.sync_generation _ _ fault e
write_generation-between io fault g c d a b (at_pointer n e) =
    stage-none io.prepare d _ a
    ∙ stage-none io.rename_generation d _ b
    ∙ stage-none io.sync_generation _ _ n
    ∙ stage-some io.write_pointer _ _ fault e
write_generation-between io fault g c d a b (at_rename n m e) =
    stage-none io.prepare d _ a
    ∙ stage-none io.rename_generation d _ b
    ∙ stage-none io.sync_generation _ _ n
    ∙ stage-none io.write_pointer _ _ m
    ∙ stage-some io.rename_pointer _ _ fault e

-- A call whose first fault is behind the rename of the generation directory and not behind the
-- rename of the pointer, be it in the sync between them, in writing the pointer or in its rename,
-- leaves a directory behind that makes the next `persist` of the shard fail and change nothing,
-- whatever the file system then does.
pub persist-stuck :
    (io io' : PersistIo) (id : Text) (index : Index) (s : IndexStore)
    → Persistable id index s
    → find_generation (next_generation id s) (dir_of id s).generations ≡ none
    → io.prepare ≡ none
    → io.rename_generation ≡ none
    → (fault : Text) → FailsBetween io fault
    → let s₁ = (persist io id s).1 in
      ((persist io id s).0 ≡ fail fault) × ((e : Text) × (persist io' id s₁ ≡ (fail e, s₁)))
unfolding persisted live_content
persist-stuck io io' id index s v free a b fault f =
    subst (λ r. (r.0 ≡ fail fault) × ((e : Text) × (persist io' id r.1 ≡ (fail e, r.1))))
      (sym first) (refl, again)
  where
    g : ℕ
    g = next_generation id s

    c : Generation
    c = live_content id index s

    d : ShardDir
    d = dir_of id s

    renamed : ShardDir
    renamed = record d { generations = (g, c) ∷ d.generations }

    s₁ : IndexStore
    s₁ = record s { disk = put id renamed s.disk }

    written : write_generation io g c d ≡ (fail fault, renamed)
    written = write_generation-between io fault g c d a b f

    first : persist io id s ≡ (fail fault, s₁)
    first =
        to_index io id index s v
        ∙ else_of _ _ (is_some (find_generation g d.generations)) (rw free refl)
        ∙ ap (persisted io id g s) written

    v₁ : Persistable id index s₁
    v₁ = record { open_index = v.open_index; durable = v.durable; counts = v.counts }

    again : (e : Text) × (persist io' id s₁ ≡ (fail e, s₁))
    again = refused io' id index s₁ c v₁ (
        ap (λ o. find_generation g (unwrap_or no_generations o).generations)
          (lookup-put id renamed s.disk)
        ∙ find-same g c d.generations)
