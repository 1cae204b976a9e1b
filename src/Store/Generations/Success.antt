-- ===== src/Store/Generations/Success.antt =====
-- store.rs: a `persist` that meets no fault succeeds.
use turbovec_grpc.Prelude.{Text, ap, inl, inr, is_some, none, refl, ℕ, ◌∙◌, ◌≡◌}
use turbovec_grpc.Fallible.{done}
use turbovec_grpc.Store.{Generation, Index, ShardDir}
use turbovec_grpc.Store.Registry.{IndexStore}
use turbovec_grpc.Store.Generations.{
  PersistIo, find_generation, persist, persisted, restore_shard, write_generation,
}
use turbovec_grpc.Store.Generations.Restart.{dir_of, next_generation}
use turbovec_grpc.Store.Generations.Reopening.{IsFresh, IsOpen, Reopens, persist-Recovers}
use turbovec_grpc.Store.Generations.Stuck.{Persistable, else_of, live_content, stage-none, to_index}

-- No stage of a `persist` fails.
pub record NoFaults (io : PersistIo) : Type 0 where
  pub prepares : io.prepare ≡ none
  pub renames_generation : io.rename_generation ≡ none
  pub syncs_generation : io.sync_generation ≡ none
  pub writes_pointer : io.write_pointer ≡ none
  pub renames_pointer : io.rename_pointer ≡ none
  pub syncs_pointer : io.sync_pointer ≡ none

write_generation-done :
    (io : PersistIo) (g : ℕ) (c : Generation) (d : ShardDir)
    → NoFaults io
    → (d' : ShardDir) × (write_generation io g c d ≡ (done tt, d'))
unfolding write_generation
write_generation-done io g c d f = (
  _,
  stage-none io.prepare _ _ f.prepares
      ∙ stage-none io.rename_generation _ _ f.renames_generation
      ∙ stage-none io.sync_generation _ _ f.syncs_generation
      ∙ stage-none io.write_pointer _ _ f.writes_pointer
      ∙ stage-none io.rename_pointer _ _ f.renames_pointer
      ∙ stage-none io.sync_pointer _ _ f.syncs_pointer,
)

persist-done :
    (io : PersistIo) (id : Text) (index : Index) (s : IndexStore)
    → Persistable id index s
    → find_generation (next_generation id s) (dir_of id s).generations ≡ none
    → NoFaults io
    → (persist io id s).0 ≡ done (next_generation id s)
unfolding persisted
persist-done io id index s v free f =
    let (d', written) =
      write_generation-done io (next_generation id s) (live_content id index s) (dir_of id s) f in
    ap (λ r. r.0)
      (to_index io id index s v
        ∙ else_of _ _ (is_some (find_generation (next_generation id s) (dir_of id s).generations))
            (rw free refl)
        ∙ ap (persisted io id (next_generation id s) s) written)

-- Where no stage fails, the generation counter can move on and the next generation's directory is
-- not there yet, a `persist` of an open shard of a durable store returns the next generation, and
-- a restart, into a store that knows nothing of the shard, succeeds and has the shard as it is
-- open.
pub persist_live :
    (io : PersistIo) (id : Text) (index : Index) (fresh s : IndexStore)
    → IsOpen id index s
    → Persistable id index s
    → IsFresh id fresh
    → find_generation (next_generation id s) (dir_of id s).generations ≡ none
    → NoFaults io
    → let (r, s') = persist io id s in
      (r ≡ done (next_generation id s))
      × ((t : IndexStore) × (restore_shard id (dir_of id s') fresh ≡ done t) × Reopens id s t)
persist_live io id index fresh s o v f free sound =
    let returned = persist-done io id index s v free sound in
    (
      returned,
      elim (persist-Recovers io id index fresh s o f).1 [
        | inl before ↦ absurd (before.1 (next_generation id s) returned)
        | inr now ↦ now
      ],
    )
