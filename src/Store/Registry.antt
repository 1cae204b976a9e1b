-- ===== src/Store/Registry.antt =====
-- store.rs: the four maps of `IndexStore` and the calls that change them.
use turbovec_grpc.Prelude.{
  Bool, List, Option, Text, [], all, display, if◌then◌else◌, is_empty, is_some, leb, length, none,
  not, retain, some, text, text_eq, true, ℕ, ◌&&◌, ◌++◌, ◌==◌, ◌||◌, ◌∷◌,
}
use turbovec_grpc.Fallible.{Fallible, done, fail, fail_if, panics, ◌>>◌}
use turbovec_grpc.Store.{Index, IngestRecord, ShardDir, count_of, index_len}

-- A hash map; `put` replaces.
abbrev pub Map {ℓ} : Type ℓ → Type ℓ
Map A = List (Text × A)

module _ {A : Type 0} where
  unfoldable pub lookup : Text → Map A → Option A
  lookup id [] = none
  lookup id ((key, a) ∷ m) = let rest = lookup id m in if text_eq key id then some a else rest

  unfoldable pub remove : Text → Map A → Map A
  remove id m = retain (λ e. not (text_eq e.0 id)) m

  unfoldable pub put : Text → A → Map A → Map A
  unfolding remove
  put id a m = (id, a) ∷ remove id m

pub record IndexStore : Type 0 where
  pub data_root : Bool
  pub inner : Map Index
  pub labels : Map (List ℕ)
  pub generations : Map ℕ
  pub ingests : Map IngestRecord
  pub disk : Map ShardDir

abbrev is_id_byte : ℕ → Bool
is_id_byte b =
    leb b'0' b && leb b b'9'
    || leb b'a' b && leb b b'z'
    || leb b'A' b && leb b b'Z'
    || b == b'-'
    || b == b'_'
    || b == b'.'

unfoldable pub validate_shard_id : Text → Fallible (Unit {0})
validate_shard_id id =
    fail_if
      (is_empty id || text_eq id (text ".") || text_eq id (text "..") || not (all is_id_byte id))
      (text "invalid shard id")

unfoldable pub labels_fit : Option (List ℕ) → Index → Bool
labels_fit none index = true
labels_fit (some labels) index = length labels == index_len index

unfoldable pub put_labels : Text → Option (List ℕ) → Map (List ℕ) → Map (List ℕ)
unfolding put
put_labels id none m = m
put_labels id (some labels) m = put id labels m

-- A call that is refused leaves the store as it is.
unfoldable pub insert_with_id :
    Text → Index → Option (List ℕ) → ℕ → IndexStore → Fallible IndexStore
unfolding put put_labels labels_fit lookup
insert_with_id id index labels generation s = do
  validate_shard_id id
  fail_if (not (labels_fit labels index)) (
      text "shard "
      ++ (id
          ++ (text " has "
              ++ (display (index_len index)
                  ++ (text " rows but " ++ (display (count_of labels) ++ text " labels"))))))
  fail_if (is_some (lookup id s.inner)) (text "duplicate shard id " ++ (id ++ text " in data root"))
  done (record s {
    inner = put id index s.inner;
    labels = put_labels id labels s.labels;
    generations = put id generation s.generations;
  })

unfoldable pub set_ingest_record : Text → IngestRecord → IndexStore → IndexStore
unfolding put
set_ingest_record id r s = record s { ingests = put id r s.ingests }

-- The maps behind a deletion whose file-system calls succeeded.
unfoldable pub forget : Text → IndexStore → IndexStore
unfolding remove
forget id s = record s {
  labels = remove id s.labels;
  generations = remove id s.generations;
  ingests = remove id s.ingests;
  inner = remove id s.inner;
}

-- The file-system stages of `delete`; the last is the removal of the tombstone and its sync.
pub record DeleteIo : Type 0 where
  pub tombstone : Option Text
  pub sync_tombstone : Option Text
  pub remove_tombstone : Option Text

unfoldable pub delete : DeleteIo → Text → IndexStore → Fallible Bool × IndexStore
unfolding forget lookup remove validate_shard_id
delete io id s = elim (validate_shard_id id) [
  | fail e ↦ (fail e, s)
  | panics ↦ (panics, s)
  | done u ↦
      let live = is_some (lookup id s.inner) in
      let durable = s.data_root && is_some (lookup id s.disk) in
      let gone = record s { disk = remove id s.disk } in
      if not durable then (done live, forget id s) else elim io.tombstone [
        | some e ↦ (fail e, s)
        | none ↦ elim io.sync_tombstone [
          | some e ↦ (fail e, gone)
          | none ↦ elim io.remove_tombstone [
            | some e ↦ (fail e, gone)
            | none ↦ (done true, forget id gone)
          ]
        ]
      ]
]
