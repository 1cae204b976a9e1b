-- ===== src/Store/Generations/Recovery.antt =====
-- store.rs: what a restart finds of a shard behind a `persist`, at whatever stage that one failed.
use turbovec_grpc.Prelude.{
  Bool, Option, Text, ap, display, false, if◌then◌else◌, inl, inr, is_some, ltb, none, not, refl,
  some, some-injective, subst, text, true, u64_mod, ℕ, ◌++◌, ◌∙◌, ◌≡◌, ◌⊎◌,
}
use turbovec_grpc.Fallible.{Fallible, done, fail, panics}
use turbovec_grpc.Store.{Generation, Index, ShardDir}
use turbovec_grpc.Store.Registry.{IndexStore, lookup}
use turbovec_grpc.Store.Generations.{
  PersistIo, cleanup_old_generations, find_generation, persist, persist_index, persist_open,
  persisted, restore_shard, write_generation,
}
use turbovec_grpc.Store.Generations.Restart.{
  Written, content, dir_of, fail-ne-done, find-same, kept-current, lookup-put, next_generation,
  pointed, reopened, write_generation-Written,
}

-- The pointer of a shard directory, where there is one, names a generation that is there.
abbrev pub HasCurrent : ShardDir → Type 0
HasCurrent d =
    (g : ℕ) → d.current ≡ some g → (c : Generation) × (find_generation g d.generations ≡ some c)

-- A restart finds what it would have found before the call, which failed; or the shard as it is
-- open, with its labels, its ingest record and the next generation.
abbrev pub Recoverable : Text → Index → IndexStore → IndexStore → Fallible ℕ × IndexStore → Type 0
Recoverable id index fresh s (r, s') =
    ((restore_shard id (dir_of id s') fresh ≡ restore_shard id (dir_of id s) fresh)
      × ((n : ℕ) → r ≡ done n → ⊥))
    ⊎ (restore_shard id (dir_of id s') fresh
        ≡ reopened id (next_generation id s) index (lookup id s.labels) (lookup id s.ingests) fresh)

panics-ne-done {ℓ} : {A : Type ℓ} {a : A} → panics ≡ done a → ⊥
panics-ne-done h = cc

pub cleaned-current :
    (io : PersistIo) (g : ℕ) (d : ShardDir) → (cleanup_old_generations io g d).current ≡ d.current
unfolding cleanup_old_generations
cleaned-current io g d = refl

failed-Recoverable :
    (id : Text) (index : Index) (fresh s : IndexStore) (d' : ShardDir) {r : Fallible (Unit {0})}
    {q : Fallible ℕ}
    → let g = next_generation id s in
      Written id g
        (content id g index (lookup id s.labels) (lookup id s.ingests))
        (dir_of id s)
        fresh
        (r, d')
      → ((n : ℕ) → q ≡ done n → ⊥)
      → ((restore_shard id d' fresh ≡ restore_shard id (dir_of id s) fresh)
          × ((n : ℕ) → q ≡ done n → ⊥))
        ⊎ (restore_shard id d' fresh
            ≡ reopened id
                (next_generation id s)
                index
                (lookup id s.labels)
                (lookup id s.ingests)
                fresh)
failed-Recoverable id index fresh s d' (inl (e, h)) n = inl (e, n)
failed-Recoverable id index fresh s d' (inr (e, (gs, f))) n = inr (
    pointed id (next_generation id s) index (lookup id s.labels) (lookup id s.ingests) d' fresh e
      (ap (find_generation (next_generation id s)) f ∙ find-same (next_generation id s) _ gs))

persisted-Recoverable :
    (io : PersistIo) (id : Text) (index : Index) (fresh s : IndexStore) (r : Fallible (Unit {0}))
    (d' : ShardDir)
    → let g = next_generation id s in
      Written id g
        (content id g index (lookup id s.labels) (lookup id s.ingests))
        (dir_of id s)
        fresh
        (r, d')
      → Recoverable id index fresh s (persisted io id g s (r, d'))
unfolding persisted
persisted-Recoverable io id index fresh s (done u) d' (inl (e, h)) = absurd (h refl)
persisted-Recoverable io id index fresh s (done u) d' (inr (e, (gs, f))) =
    let g = next_generation id s in
    rw (lookup-put id (cleanup_old_generations io g d') s.disk) (
      inr (
        pointed id g index (lookup id s.labels) (lookup id s.ingests)
          (cleanup_old_generations io g d') fresh (cleaned-current io g d' ∙ e)
          (kept-current io g _ gs d' f)))
persisted-Recoverable io id index fresh s (fail x) d' w =
    rw (lookup-put id d' s.disk) (failed-Recoverable id index fresh s d' w (λ n h. fail-ne-done h))
persisted-Recoverable io id index fresh s panics d' w =
    rw (lookup-put id d' s.disk)
      (failed-Recoverable id index fresh s d' w (λ n h. panics-ne-done h))

guarded-Recoverable :
    (id : Text) (index : Index) (fresh s : IndexStore) (b : Bool) (e : Text)
    (next : Fallible ℕ × IndexStore)
    → Recoverable id index fresh s next
    → Recoverable id index fresh s (if b then (fail e, s) else next)
guarded-Recoverable id index fresh s true e next h = inl (refl, λ n x. fail-ne-done x)
guarded-Recoverable id index fresh s false e next h = h

pub not_found :
    (g : ℕ) (d : ShardDir)
    → HasCurrent d
    → is_some (find_generation g d.generations) ≡ false
    → d.current ≡ some g
    → ⊥
not_found g d h n e = let (c, f) = h g e in cc

persist_index-Recoverable :
    (io : PersistIo) (id : Text) (index : Index) (fresh s : IndexStore)
    → HasCurrent (dir_of id s)
    → Recoverable id index fresh s (persist_index io id index s)
unfolding persist_index
persist_index-Recoverable io id index fresh s p =
    let g = next_generation id s in
    let c = content id g index (lookup id s.labels) (lookup id s.ingests) in
    let w = write_generation io g c (dir_of id s) in
    let refused = text "refusing to overwrite existing generation " ++ display g in
    guarded-Recoverable id index fresh s (not (ltb g u64_mod))
      (text "generation counter overflow for shard " ++ id)
      (if is_some (find_generation g (dir_of id s).generations)
        then (fail refused, s)
        else persisted io id g s w)
      (unless_taken (is_some (find_generation g (dir_of id s).generations)) refl)
  where
    unless_taken :
        (taken : Bool)
        → is_some (find_generation (next_generation id s) (dir_of id s).generations) ≡ taken
        → Recoverable id index fresh s (
            if taken
            then (
              fail (
                  text "refusing to overwrite existing generation "
                  ++ display (next_generation id s)),
              s,
            )
            else persisted io id (next_generation id s) s (
                write_generation io
                  (next_generation id s)
                  (content id
                    (next_generation id s)
                    index
                    (lookup id s.labels)
                    (lookup id s.ingests))
                  (dir_of id s)))
    unless_taken true e = inl (refl, λ n x. fail-ne-done x)
    unless_taken false e =
        let w =
          write_generation io (next_generation id s)
            (content id (next_generation id s) index (lookup id s.labels) (lookup id s.ingests))
            (dir_of id s) in
        persisted-Recoverable io id index fresh s w.0 w.1 (
          write_generation-Written io id (next_generation id s)
            (content id (next_generation id s) index (lookup id s.labels) (lookup id s.ingests))
            (dir_of id s) fresh (not_found (next_generation id s) (dir_of id s) p e))

persist_open-Recoverable :
    (io : PersistIo) (id : Text) (o : Option Index) (index : Index) (fresh s : IndexStore)
    → o ≡ some index
    → HasCurrent (dir_of id s)
    → Recoverable id index fresh s (persist_open io id o s)
unfolding persist_open
persist_open-Recoverable io id none index fresh s e p = absurd cc
persist_open-Recoverable io id (some i) index fresh s e p =
    subst (λ j. Recoverable id j fresh s (persist_index io id i s)) (some-injective e)
      (persist_index-Recoverable io id i fresh s p)

pub persist-Recoverable :
    (io : PersistIo) (id : Text) (index : Index) (fresh s : IndexStore)
    → lookup id s.inner ≡ some index
    → HasCurrent (dir_of id s)
    → Recoverable id index fresh s (persist io id s)
unfolding persist
persist-Recoverable io id index fresh s o p =
    guarded-Recoverable id index fresh s (not s.data_root)
      (text "persistence is disabled: TURBOVEC_DATA_DIR is not configured")
      (persist_open io id (lookup id s.inner) s)
      (persist_open-Recoverable io id (lookup id s.inner) index fresh s o p)
