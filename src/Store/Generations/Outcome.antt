-- ===== src/Store/Generations/Outcome.antt =====
-- What a `persist` that returns has done.
use turbovec_grpc.Prelude.{
  Bool, Option, Text, ap, display, false, if◌then◌else◌, is_some, ltb, none, not, refl, some, sym,
  text, true, u64_mod, ℕ, ◌++◌, ◌∙◌, ◌≡◌,
}
use turbovec_grpc.Fallible.{Fallible, done, done-injective, fail, panics}
use turbovec_grpc.Store.{Index, ShardDir}
use turbovec_grpc.Store.Registry.{IndexStore, lookup}
use turbovec_grpc.Store.Generations.{
  PersistIo, find_generation, persist, persist_index, persist_open, persisted, write_generation,
}
use turbovec_grpc.Store.Generations.Restart.{content, dir_of, lookup-put, next_generation}

-- What a `persist` that returns leaves alone, and the generation it moves to.
pub record PersistDone (id : Text) (g : ℕ) (s s' : IndexStore) : Type 0 where
  pub same_root : s'.data_root ≡ s.data_root
  pub same_inner : s'.inner ≡ s.inner
  pub same_labels : s'.labels ≡ s.labels
  pub same_ingests : s'.ingests ≡ s.ingests
  pub moves : g ≡ next_generation id s
  pub is_current : lookup id s'.generations ≡ some g

abbrev pub Done : Text → IndexStore → Fallible ℕ × IndexStore → Type 0
Done id s (r, s') = (g : ℕ) → r ≡ done g → PersistDone id g s s'

guarded-Done :
    (id : Text) (s : IndexStore) (b : Bool) (e : Text) (next : Fallible ℕ × IndexStore)
    → Done id s next
    → Done id s (if b then (fail e, s) else next)
guarded-Done id s true e next h = λ g x. absurd cc
guarded-Done id s false e next h = h

persisted-Done :
    (io : PersistIo) (id : Text) (s : IndexStore) (r : Fallible (Unit {0})) (d : ShardDir)
    → Done id s (persisted io id (next_generation id s) s (r, d))
unfolding persisted
persisted-Done io id s (done u) d g e = record {
  same_root = refl;
  same_inner = refl;
  same_labels = refl;
  same_ingests = refl;
  moves = sym (done-injective e);
  is_current = lookup-put id (next_generation id s) s.generations ∙ ap some (done-injective e);
}
persisted-Done io id s (fail x) d g e = absurd cc
persisted-Done io id s panics d g e = absurd cc

persist_index-Done :
    (io : PersistIo) (id : Text) (index : Index) (s : IndexStore)
    → Done id s (persist_index io id index s)
unfolding persist_index
persist_index-Done io id index s =
    let g = next_generation id s in
    let c = content id g index (lookup id s.labels) (lookup id s.ingests) in
    let w = write_generation io g c (dir_of id s) in
    let taken = is_some (find_generation g (dir_of id s).generations) in
    let refused = text "refusing to overwrite existing generation " ++ display g in
    guarded-Done id s (not (ltb g u64_mod)) (text "generation counter overflow for shard " ++ id)
      (if taken then (fail refused, s) else persisted io id g s w)
      (guarded-Done id s taken refused (persisted io id g s w) (persisted-Done io id s w.0 w.1))

persist_open-Done :
    (io : PersistIo) (id : Text) (o : Option Index) (s : IndexStore)
    → Done id s (persist_open io id o s)
unfolding persist_open
persist_open-Done io id none s = λ g x. absurd cc
persist_open-Done io id (some index) s = persist_index-Done io id index s

pub persist-Done : (io : PersistIo) (id : Text) (s : IndexStore) → Done id s (persist io id s)
unfolding persist
persist-Done io id s =
    guarded-Done id s (not s.data_root)
      (text "persistence is disabled: TURBOVEC_DATA_DIR is not configured")
      (persist_open io id (lookup id s.inner) s) (persist_open-Done io id (lookup id s.inner) s)
