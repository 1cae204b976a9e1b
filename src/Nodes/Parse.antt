-- ===== src/Nodes/Parse.antt =====
-- coordinator/nodes.rs: the node table's configuration text.
use turbovec_grpc.Prelude.{
  Bool, List, Option, Text, [], display, false, get_elem?, if◌then◌else◌, is_empty, leb, map, none,
  not, retain, some, suc, text, true, ℕ, ◌&&◌, ◌++◌, ◌==◌, ◌||◌, ◌∷◌,
}
use turbovec_grpc.Fallible.{
  Fallible, bad, done, fail, fail_if, int_error_text, number, panics, parse_u64, ◌>>=◌, ◌>>◌,
}
use turbovec_grpc.Nodes.{NodeTable, ShardConfig, new_shard, with_index_generation, with_scheme}

-- The pieces of a text between the characters of a kind, empty ones included.
unfoldable pub pieces : (ℕ → Bool) → Text → Text → List Text
pieces is_sep cur [] = cur ∷ []
pieces is_sep cur (c ∷ cs) = elim (is_sep c) [
  | true ↦ cur ∷ pieces is_sep [] cs
  | false ↦ pieces is_sep (cur ++ c ∷ []) cs
]

abbrev pub is_entry_end : ℕ → Bool
is_entry_end c = c == b',' || c == 10

unfoldable pub split_entries : Text → List Text
unfolding pieces
split_entries s = pieces is_entry_end [] s

-- What stands before the first `#`.
unfoldable pub strip_comment : Text → Text
strip_comment [] = []
strip_comment (c ∷ cs) = if c == b'#' then [] else c ∷ strip_comment cs

-- `char::is_whitespace`, and the ASCII kind.
abbrev pub is_whitespace : ℕ → Bool
is_whitespace c =
    (leb 9 c && leb c 13)
    || (c == 32
        || (c == 0x85
            || (c == 0xa0
                || (c == 0x1680
                    || ((leb 0x2000 c && leb c 0x200a)
                        || (c == 0x2028
                            || (c == 0x2029 || (c == 0x202f || (c == 0x205f || c == 0x3000)))))))))

abbrev pub is_ascii_whitespace : ℕ → Bool
is_ascii_whitespace c = c == 32 || (c == 9 || (c == 10 || (c == 12 || c == 13)))

unfoldable pub trim_start : Text → Text
trim_start [] = []
trim_start (c ∷ cs) = if is_whitespace c then trim_start cs else c ∷ cs

unfoldable pub trim_end : Text → Text
trim_end [] = []
trim_end (c ∷ cs) =
    let rest = trim_end cs in if is_whitespace c && is_empty rest then [] else c ∷ rest

unfoldable pub trim : Text → Text
unfolding trim_start trim_end
trim s = trim_end (trim_start s)

-- `split_ascii_whitespace`: the pieces that are not empty.
unfoldable pub words : Text → List Text
unfolding pieces
words s = retain (λ w. not (is_empty w)) (pieces is_ascii_whitespace [] s)

unfoldable pub split_replicas : Text → List Text
unfolding pieces
split_replicas s = pieces (λ c. c == b'|') [] s

abbrev pub at_position : ℕ → Text → Text
at_position position rest = text "shard at position " ++ (display position ++ (text ": " ++ rest))

-- The third field, if there is one.
unfoldable pub parse_generation : ℕ → Option Text → Fallible (Option ℕ)
parse_generation position none = done none
parse_generation position (some value) = elim (parse_u64 value) [
  | number n ↦ done (some n)
  | bad e ↦ fail (
      at_position position
        (text "invalid generation " ++ (value ++ (text ": " ++ int_error_text e))))
]

unfoldable pub refuse_extra : ℕ → Option Text → Fallible (Unit {0})
refuse_extra position none = done tt
refuse_extra position (some extra) = fail (
    at_position position (
      text
        "expected addresses, an optional index handle, and an optional generation; found an extra field "
      ++ extra))

-- `match index_id`
unfoldable pub shard_of : ℕ → Text → Option Text → Option ℕ → Fallible ShardConfig
shard_of position primary (some id) generation = done (with_index_generation primary id generation)
shard_of position primary none none = done (new_shard primary)
shard_of position primary none (some n) =
    fail (at_position position (text "generation requires an index handle"))

-- The primary is the first address; the others are replicas.
unfoldable pub with_addresses : ℕ → List Text → Option Text → Option ℕ → Fallible ShardConfig
unfolding shard_of
with_addresses position [] index_id generation = panics
with_addresses position (primary ∷ replicas) index_id generation = do
  shard ← shard_of position primary index_id generation
  done (record shard { replicas = map with_scheme replicas })

unfoldable pub parse_fields : ℕ → List Text → Fallible ShardConfig
unfolding parse_generation refuse_extra with_addresses
parse_fields position [] = panics
parse_fields position (addresses ∷ fields) = do
  generation ← parse_generation position (get_elem? fields 1)
  refuse_extra position (get_elem? fields 2)
  with_addresses position (split_replicas addresses) (get_elem? fields 0) generation

-- One turn of the loop: an entry that is empty but for a comment is passed over.
unfoldable pub parse_entry : ℕ → Text → Fallible (Option ShardConfig)
unfolding parse_fields
parse_entry position raw =
    let entry = trim (strip_comment raw) in
    if is_empty entry
    then done none
    else (parse_fields position (words entry) >>= λ shard. done (some shard))

abbrev pub cons_some : Option ShardConfig → List ShardConfig → List ShardConfig
cons_some none shards = shards
cons_some (some shard) shards = shard ∷ shards

unfoldable pub parse_entries : ℕ → List Text → Fallible (List ShardConfig)
unfolding parse_entry
parse_entries position [] = done []
parse_entries position (raw ∷ entries) = do
  shard ← parse_entry position raw
  shards ← parse_entries (suc position) entries
  done (cons_some shard shards)

-- `NodeTable::parse`
unfoldable pub parse : Text → Fallible NodeTable
unfolding parse_entries split_entries
parse s = do
  shards ← parse_entries 0 (split_entries s)
  fail_if (is_empty shards) (text "no shards configured: the node table is empty")
  done (record { shards = shards })
