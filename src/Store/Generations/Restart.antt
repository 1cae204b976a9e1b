-- ===== src/Store/Generations/Restart.antt =====
-- What a restart finds of a shard behind a `persist`, at whatever stage that one failed.
use turbovec_grpc.Prelude.{
  ==_iff, Bool, List, Option, Text, ap, arith, false, inl, inr, length, le→ltb, ltb, none, not,
  refl, retain, some, sym, text_eq_refl, true, ℕ, ◌+◌, ◌-◌, ◌==◌, ◌||◌, ◌∙◌, ◌∷◌, ◌≡◌, ◌⊎◌,
}
use turbovec_grpc.Fallible.{Fallible, done, fail, ◌>>=◌}
use turbovec_grpc.Store.{
  Generation, Index, IngestRecord, ShardDir, calibration_name, index_bits, index_dim, index_len,
  index_state, kind_name, manifest_for, same_dim, scale_bits, shift_bits, validate_loaded_index,
  validate_manifest_header,
}
use turbovec_grpc.Store.Registry.{IndexStore, Map, insert_with_id, lookup, put}
use turbovec_grpc.Store.Generations.{
  PersistIo, cleanup_old_generations, find_generation, load_generation, no_generations, read_labels,
  restore_current, restore_ingest, restore_shard, stage, unwrap_or, write_generation,
}

pub lookup-put : {A : Type 0} (id : Text) (a : A) (m : Map A) → lookup id (put id a m) ≡ some a
unfolding lookup put
lookup-put id a m = rw (text_eq_refl id) refl

find-other :
    (n g : ℕ) (c : Generation) (gs : List (ℕ × Generation))
    → (g ≡ n → ⊥)
    → find_generation n ((g, c) ∷ gs) ≡ find_generation n gs
unfolding find_generation
find-other n g c gs h = rw (not_same g n h) refl
  where
    not_same : (a b : ℕ) → (a ≡ b → ⊥) → (a == b) ≡ false
    not_same a b h = ground (arith, h)

pub find-same :
    (g : ℕ) (c : Generation) (gs : List (ℕ × Generation)) → find_generation g ((g, c) ∷ gs) ≡ some c
unfolding find_generation
find-same g c gs = rw ((==_iff g g).1 refl) refl

pub restore-other :
    (id : Text) (o : Option ℕ) (g : ℕ) (c : Generation) (d : ShardDir) (s : IndexStore)
    → (o ≡ some g → ⊥)
    → restore_current id o (record d { generations = (g, c) ∷ d.generations }) s
      ≡ restore_current id o d s
unfolding restore_current
restore-other id none g c d s h = refl
restore-other id (some n) g c d s h =
    ap (λ o. load_generation id n o s) (find-other n g c d.generations (λ e. h (ap some (sym e))))

-- Both outcomes of the writing: a restart finds the old shard, and the call failed; or it finds the
-- new generation.
abbrev pub Written :
    Text → ℕ → Generation → ShardDir → IndexStore → Fallible (Unit {0}) × ShardDir → Type 0
Written id g c d s (r, d') =
    ((restore_shard id d' s ≡ restore_shard id d s) × (r ≡ done tt → ⊥))
    ⊎ ((d'.current ≡ some g) × ((gs : List (ℕ × Generation)) × (d'.generations ≡ (g, c) ∷ gs)))

pub fail-ne-done {ℓ} : {A : Type ℓ} {e : Text} {a : A} → fail e ≡ done a → ⊥
fail-ne-done h = cc

stage-Written :
    (id : Text) (g : ℕ) (c : Generation) (d : ShardDir) (s : IndexStore) (o : Option Text)
    (d₁ : ShardDir) (next : Fallible (Unit {0}) × ShardDir)
    → restore_shard id d₁ s ≡ restore_shard id d s
    → Written id g c d s next
    → Written id g c d s (stage o d₁ next)
unfolding stage
stage-Written id g c d s none d₁ next h w = w
stage-Written id g c d s (some e) d₁ next h w = inl (h, λ x. fail-ne-done x)

last-Written :
    (id : Text) (g : ℕ) (c : Generation) (d : ShardDir) (s : IndexStore) (o : Option Text)
    (d₁ : ShardDir)
    → d₁.current ≡ some g
    → d₁.generations ≡ (g, c) ∷ d.generations
    → Written id g c d s (stage o d₁ (done tt, d₁))
unfolding stage
last-Written id g c d s none d₁ e f = inr (e, (d.generations, f))
last-Written id g c d s (some x) d₁ e f = inr (e, (d.generations, f))

pub write_generation-Written :
    (io : PersistIo) (id : Text) (g : ℕ) (c : Generation) (d : ShardDir) (s : IndexStore)
    → (d.current ≡ some g → ⊥)
    → Written id g c d s (write_generation io g c d)
unfolding write_generation restore_shard
write_generation-Written io id g c d s h =
    let d₁ = record d { generations = (g, c) ∷ d.generations } in
    let same = restore-other id d.current g c d s h in
    stage-Written id g c d s io.prepare d _ refl (
      stage-Written id g c d s io.rename_generation d _ refl (
        stage-Written id g c d s io.sync_generation d₁ _ same (
          stage-Written id g c d s io.write_pointer d₁ _ same (
            stage-Written id g c d s io.rename_pointer d₁ _ same (
              last-Written id g c d s io.sync_pointer (record d₁ { current = some g }) refl
                refl)))))

same_dim_refl : (o : Option ℕ) → same_dim o o ≡ true
unfolding same_dim
same_dim_refl none = refl
same_dim_refl (some n) = (==_iff n n).1 refl

labels-read :
    (id : Text) (g : ℕ) (index : Index) (labels : Option (List ℕ)) (r : Option IngestRecord)
    → let m = manifest_for id g index labels r in
      read_labels m.labelled (record { manifest = m; index = index; labels = labels }) ≡ done labels
unfolding read_labels manifest_for
labels-read id g index none r = refl
labels-read id g index (some labels) r = rw ((==_iff (length labels) (length labels)).1 refl) refl

-- What the generation of an open shard is restored to.
unfoldable pub reopened :
    Text → ℕ → Index → Option (List ℕ) → Option IngestRecord → IndexStore → Fallible IndexStore
reopened id g index labels r s = do
  s' ← insert_with_id id index labels g s
  done (restore_ingest id r s')

header-ok :
    (id : Text) (g : ℕ) (index : Index) (labels : Option (List ℕ)) (r : Option IngestRecord)
    → validate_manifest_header (manifest_for id g index labels r) id g ≡ done tt
unfolding validate_manifest_header manifest_for
header-ok id g index labels r = rw (text_eq_refl id, (==_iff g g).1 refl) refl

index-ok :
    (id : Text) (g : ℕ) (index : Index) (labels : Option (List ℕ)) (r : Option IngestRecord)
    → validate_loaded_index (manifest_for id g index labels r) index ≡ done tt
unfolding validate_loaded_index manifest_for
index-ok id g index labels r =
    rw
      (
        text_eq_refl (kind_name index),
        same_dim_refl (index_dim index),
        (==_iff (index_bits index) (index_bits index)).1 refl,
        (==_iff (index_len index) (index_len index)).1 refl,
        text_eq_refl (calibration_name (index_state index)),
        text_eq_refl (shift_bits index),
        text_eq_refl (scale_bits index),
      )
      refl

abbrev pub content : Text → ℕ → Index → Option (List ℕ) → Option IngestRecord → Generation
content id g index labels r = record {
  manifest = manifest_for id g index labels r;
  index = index;
  labels = labels;
}

manifest-ingest :
    (id : Text) (g : ℕ) (index : Index) (labels : Option (List ℕ)) (r : Option IngestRecord)
    → (manifest_for id g index labels r).last_ingest ≡ r
unfolding manifest_for
manifest-ingest id g index labels r = refl

load-manifest_for :
    (id : Text) (g : ℕ) (index : Index) (labels : Option (List ℕ)) (r : Option IngestRecord)
    (s : IndexStore)
    → load_generation id g (some (content id g index labels r)) s ≡ reopened id g index labels r s
unfolding load_generation reopened
load-manifest_for id g index labels r s =
    rw
      (header-ok id g index labels r, index-ok id g index labels r, labels-read id g index labels r)
      (ap (λ q. insert_with_id id index labels g s >>= λ s'. done (restore_ingest id q s'))
        (manifest-ingest id g index labels r))

retain-first :
    {A : Type 0} (p : A → Bool) (x : A) (xs : List A)
    → p x ≡ true
    → retain p (x ∷ xs) ≡ x ∷ retain p xs
retain-first p x xs h = rw (h, retain) refl

pub kept-current :
    (io : PersistIo) (g : ℕ) (c : Generation) (gs : List (ℕ × Generation)) (d : ShardDir)
    → d.generations ≡ (g, c) ∷ gs
    → find_generation g (cleanup_old_generations io g d).generations ≡ some c
unfolding cleanup_old_generations
kept-current io g c gs d e =
    let keep : ℕ × Generation → Bool = λ e. not (ltb e.0 (g - 1)) || not (io.removes e.0) in
    ap (λ xs. find_generation g (retain keep xs)) e
    ∙ ap (find_generation g)
        (retain-first keep (g, c) gs (rw (le→ltb g (g - 1) (omega arith)) refl))
    ∙ find-same g c (retain keep gs)

pub pointed :
    (id : Text) (g : ℕ) (index : Index) (labels : Option (List ℕ)) (r : Option IngestRecord)
    (d : ShardDir) (s : IndexStore)
    → d.current ≡ some g
    → find_generation g d.generations ≡ some (content id g index labels r)
    → restore_shard id d s ≡ reopened id g index labels r s
unfolding restore_shard restore_current
pointed id g index labels r d s e f =
    ap (λ o. restore_current id o d s) e
    ∙ ap (λ o. load_generation id g o s) f
    ∙ load-manifest_for id g index labels r s

-- The directory of a shard, empty where there is none yet.
abbrev pub dir_of : Text → IndexStore → ShardDir
dir_of id s = unwrap_or no_generations (lookup id s.disk)

abbrev pub next_generation : Text → IndexStore → ℕ
next_generation id s = unwrap_or 0 (lookup id s.generations) + 1
