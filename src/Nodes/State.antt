-- ===== src/Nodes/State.antt =====
-- coordinator/nodes.rs: the durable topology file, over a file system that may fail at any step.
use turbovec_grpc.Prelude.{
  List, Option, Text, [], display, if◌then◌else◌, is_empty, none, not, some, text, ℕ, ◌++◌, ◌==◌,
  ◌||◌, ◌≡◌,
}
use turbovec_grpc.Fallible.{Fallible, done, fail, fail_if, panics, ◌>>◌}
use turbovec_grpc.Nodes.{NodeTable, ShardConfig}

-- `PersistedTopology`
pub record PersistedTopology : Type 0 where
  pub version : ℕ
  pub generation : ℕ
  pub shards : List ShardConfig
  pub spares : List Text

abbrev pub topology_version : ℕ
topology_version = 1

-- The steps at which the file system may fail.
pub data FileStep : Type 0 where
  read_state create_directory create_temp write_temp sync_temp rename_temp sync_directory
        remove_temp :
      FileStep

-- The state file and the temporary file beside it, by their contents.
pub record Disk : Type 0 where
  pub state : Option Text
  pub temp : Option Text

-- What the program does not implement: JSON, and which steps of the file system fail.
pub record Host : Type 0 where
  pub encode : PersistedTopology → Text
  pub decode : Text → Option PersistedTopology
  pub fault : FileStep → Option Text

-- serde's promise for a type that derives both ways.
abbrev pub RoundTrips : Host → Type 0
RoundTrips host = (p : PersistedTopology) → host.decode (host.encode p) ≡ some p

-- An action returns what it made of the disk, also when it fails.
abbrev pub Action : Type 0 → Type 0
Action A = Disk → Fallible A × Disk

infixl 5 ◌then_do◌
abbrev pub ◌then_do◌ : {A B : Type 0} → Action A → (A → Action B) → Action B
◌then_do◌ m f d =
    let (r, d') = m d in elim r [ done a ↦ f a d' | fail e ↦ (fail e, d') | panics ↦ (panics, d') ]

-- One step with its effect, or its fault.
unfoldable pub attempt : Host → FileStep → Text → (Disk → Disk) → Action (Unit {0})
attempt host step what effect d = elim (host.fault step) [
  | none ↦ (done tt, effect d)
  | some e ↦ (fail (what ++ e), d)
]

-- The closure of `persist_topology`: the new bytes reach the state file by one rename.
unfoldable pub write_and_rename : Host → Text → Action (Unit {0})
unfolding attempt
write_and_rename host bytes =
    attempt host create_temp (text "create topology temp ") (λ d. record d { temp = some [] })
    then_do λ _.
        attempt host write_temp (text "write topology temp ") (λ d. record d { temp = some bytes })
        then_do λ _. attempt host sync_temp (text "sync topology temp ") (λ d. d) then_do λ _.
            attempt host rename_temp (text "activate topology state ")
              (λ d. record { state = d.temp; temp = none })
            then_do λ _. attempt host sync_directory (text "sync topology directory ") (λ d. d)

-- A failure removes the temporary file; a fault of the removal is passed over.
unfoldable pub clean_up : Host → Fallible (Unit {0}) × Disk → Fallible (Unit {0}) × Disk
unfolding attempt
clean_up host (done u, d) = (done u, d)
clean_up host (fail e, d) =
    (fail e, (attempt host remove_temp [] (λ d. record d { temp = none }) d).1)
clean_up host (panics, d) = (panics, d)

unfoldable pub persist_topology : Host → ℕ → List ShardConfig → List Text → Action (Unit {0})
unfolding attempt write_and_rename clean_up
persist_topology host generation shards spares d =
    if generation == 0 || is_empty shards
    then (fail (text "refusing topology generation " ++ display generation), d)
    else (attempt host create_directory (text "create topology directory ") (λ d. d) then_do λ _ d'.
          clean_up host (
            write_and_rename host
              (host.encode (record {
                version = topology_version;
                generation = generation;
                shards = shards;
                spares = spares;
              }))
              d'))
        d

abbrev pub Loaded : Type 0
Loaded = ℕ × NodeTable × List Text

-- The checks on a state file that decodes.
unfoldable pub accept : Option PersistedTopology → Fallible Loaded
accept none = fail (text "decode topology state")
accept (some p) = do
  fail_if (not (p.version == topology_version))
      (text "topology state has version " ++ display p.version)
  fail_if (p.generation == 0 || is_empty p.shards)
      (text "topology state has generation " ++ display p.generation)
  done (p.generation, record { shards = p.shards }, p.spares)

-- An existing file wins over the startup table; an absent one is seeded at generation 1.
unfoldable pub load_or_initialize : Host → NodeTable → Action Loaded
unfolding accept
load_or_initialize host initial d = elim d.state [
  | some bytes ↦
      (attempt host read_state (text "read topology state ") (λ d. d) then_do λ _ d'.
      (accept (host.decode bytes), d'))
        d
  | none ↦
      if is_empty initial.shards
      then (fail (text "cannot initialize an empty topology"), d)
      else (persist_topology host 1 initial.shards [] then_do λ _ d'. (done (1, initial, []), d')) d
]
