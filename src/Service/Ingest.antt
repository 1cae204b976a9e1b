-- ===== src/Service/Ingest.antt =====
-- service.rs: `add`, the retry-safe ingest, and `add_chunk`. The stream is the list of its frames;
-- the vector library's two ways to add rows are one parameter. The call runs alone: it holds the
-- index's mutation lock.
pub mod Staging
pub mod Replay
use turbovec_grpc.Prelude.{
  Bool, List, Option, Text, [], display, false, if◌then◌else◌, is_empty, is_some, length, ltb, none,
  not, some, text, text_eq, true, u64_mod, ℕ, ◌%◌, ◌&&◌, ◌++◌, ◌+◌, ◌/◌, ◌==◌, ◌||◌, ◌∷◌,
}
use turbovec_grpc.Float.{F32}
use turbovec_grpc.Status.{
  Result, aborted, err, failed_precondition, internal, invalid_argument, labelled_index_immutable,
  not_found, ok, panic, precondition, refuse_if, resource_exhausted, status, ◌>>=◌, ◌>>◌,
}
use turbovec_grpc.Fallible.{Fallible, done, fail, panics}
use turbovec_grpc.Store.{Index, IngestRecord, id_map, index_len, positional}
use turbovec_grpc.Store.Registry.{IndexStore, lookup, put, set_ingest_record}
use turbovec_grpc.Store.Generations.{PersistIo, persist, unwrap_or}

pub record AddRequest : Type 0 where
  pub index_id : Text
  pub dim : ℕ
  pub vectors : List F32
  pub ids : List ℕ
  pub operation_id : Text
  pub expected_len : Option ℕ
  pub expected_rows : ℕ

pub record AddResponse : Type 0 where
  pub added : ℕ
  pub len : ℕ
  pub generation : ℕ
  pub replayed : Bool
  pub operation_id : Text

-- `add_2d` and `add_with_ids_2d`, which return the index with the rows or a text.
pub record Library : Type 0 where
  pub add_2d : Index → List F32 → ℕ → List ℕ → Fallible Index

-- What surrounds a call: the library, the file system, and the limit on a frame.
pub record Env : Type 0 where
  pub library : Library
  pub io : PersistIo
  pub max_vector_coordinates_per_frame : ℕ

unfoldable pub validate_vector_frame : Env → ℕ → Result (Unit {0})
validate_vector_frame env coordinates =
    refuse_if (ltb env.max_vector_coordinates_per_frame coordinates) (
      status resource_exhausted (
        text "vector frame has "
        ++ (display coordinates
            ++ (text " coordinates; limit is " ++ display env.max_vector_coordinates_per_frame))))

unfoldable pub handle : Text → IndexStore → Result Index
unfolding lookup
handle id s = elim (lookup id s.inner) [
  | none ↦ err (status not_found (text "unknown index_id: " ++ id))
  | some index ↦ ok index
]

-- A later frame's metadata: set, and not what the first frame said.
unfoldable pub other_len : Option ℕ → Option ℕ → Bool
other_len none expected = false
other_len (some value) none = true
other_len (some value) (some expected) = not (value == expected)

unfoldable pub other_metadata : AddRequest → AddRequest → Bool
unfolding other_len
other_metadata head chunk =
    not (chunk.dim == head.dim)
    || (not (is_empty chunk.operation_id) && not (text_eq chunk.operation_id head.operation_id))
    || other_len chunk.expected_len head.expected_len
    || (not (chunk.expected_rows == 0) && not (chunk.expected_rows == head.expected_rows))

-- The loop over the later frames, which gathers the vectors and the ids.
unfoldable pub combine : Env → AddRequest → List AddRequest → Result AddRequest
unfolding other_metadata validate_vector_frame
combine env head [] = ok head
combine env head (chunk ∷ chunks) = do
  refuse_if (not (is_empty chunk.index_id) && not (text_eq chunk.index_id head.index_id))
      (status invalid_argument (text "every add frame must carry the same index_id"))
  refuse_if (other_metadata head chunk)
      (status invalid_argument (text "every add frame must repeat the same operation metadata"))
  validate_vector_frame env (length head.vectors + length chunk.vectors)
  combine env (record head { vectors = head.vectors ++ chunk.vectors; ids = head.ids ++ chunk.ids })
      chunks

unfoldable pub validate_shape : AddRequest → Result ℕ
validate_shape op = do
  refuse_if (op.dim == 0 || not (length op.vectors % op.dim == 0)) (
      status invalid_argument (
        text "vector buffer length "
        ++ (display (length op.vectors)
            ++ (text " is not a positive multiple of dim " ++ display op.dim))))
  ok (length op.vectors / op.dim)

unfoldable pub validate_operation : Bool → AddRequest → ℕ → Result (Unit {0})
validate_operation durable op rows =
    if not (is_empty op.operation_id)
    then (refuse_if (not durable)
          (status failed_precondition (text "retry-safe ingest requires TURBOVEC_DATA_DIR"))
        >> refuse_if (not (is_some op.expected_len) || not (op.expected_rows == rows)) (
            status invalid_argument (
              text "operation "
              ++ (op.operation_id
                  ++ (text " must declare expected_len and exactly "
                      ++ (display rows ++ text " expected_rows"))))))
    else refuse_if (is_some op.expected_len || not (op.expected_rows == 0))
        (status invalid_argument (text "expected_len and expected_rows require operation_id"))

-- The part in front of the lock: the whole operation with its rows, and the index.
unfoldable pub stage_add : Env → List AddRequest → IndexStore → Result (AddRequest × (ℕ × Index))
unfolding combine validate_shape validate_operation handle validate_vector_frame
stage_add env [] s = err (status invalid_argument (text "empty add stream: no frames received"))
stage_add env (head ∷ chunks) s = do
  validate_vector_frame env (length head.vectors)
  index ← handle head.index_id s
  refuse_if (is_some (lookup head.index_id s.labels)) (
      precondition labelled_index_immutable (
        text "index "
        ++ (head.index_id
            ++ text
                " carries external row labels from ImportRows; build a new index from its rows plus the new ones instead")))
  op ← combine env head chunks
  rows ← validate_shape op
  validate_operation s.data_root op rows
  ok (op, (rows, index))

-- A `persist` on the server's side: its failure is an internal error.
unfoldable pub persist_reply :
    (ℕ → AddResponse) → Fallible ℕ × IndexStore → Result AddResponse × IndexStore
persist_reply reply (done g, s) = (ok (reply g), s)
persist_reply reply (fail e, s) = (err (status internal e), s)
persist_reply reply (panics, s) = (panic, s)

unfoldable pub not_positional_ids : Index → List ℕ → Bool
not_positional_ids (positional i) ids = not (is_empty ids)
not_positional_ids (id_map i) ids = false

-- `add_chunk`; its test of the shape repeats the one that was passed.
unfoldable pub add_chunk : Env → AddRequest → Index → Result Index
unfolding not_positional_ids
add_chunk env op index =
    refuse_if (not_positional_ids index op.ids)
      (status invalid_argument (text "ids must be empty for a positional index"))
    >> (elim (env.library.add_2d index op.vectors op.dim op.ids) [
      | done grown ↦ ok grown
      | fail e ↦ err (status invalid_argument e)
      | panics ↦ panic
    ])

unfoldable pub response : AddRequest → ℕ → ℕ → Bool → ℕ → AddResponse
response op rows len replayed generation = record {
  added = rows;
  len = len;
  generation = generation;
  replayed = replayed;
  operation_id = op.operation_id;
}

-- The record of an operation that is about to be persisted.
unfoldable pub record_of : AddRequest → ℕ → ℕ → IndexStore → IngestRecord
unfolding lookup
record_of op rows len s = record {
  operation_id = op.operation_id;
  expected_len = unwrap_or 0 op.expected_len;
  rows = rows;
  len = len;
  generation = unwrap_or 0 (lookup op.index_id s.generations) + 1;
}

-- The rows are added; a named operation is recorded and persisted.
unfoldable pub apply :
    Env → AddRequest → ℕ → ℕ → Result Index → IndexStore → Result AddResponse × IndexStore
unfolding persist_reply response record_of persist set_ingest_record put
apply env op rows len (err e) s = (err e, s)
apply env op rows len panic s = (panic, s)
apply env op rows len (ok grown) s =
    let s' = record s { inner = put op.index_id grown s.inner } in
    let r = record_of op rows (len + rows) s' in
    if is_empty op.operation_id
    then (ok (response op rows (len + rows) false 0), s')
    else if not (ltb r.generation u64_mod)
    then (err (status internal (text "generation counter overflow")), s')
    else persist_reply (response op rows (len + rows) false)
        (persist env.io op.index_id (set_ingest_record op.index_id r s'))

-- A named operation that is on record.
unfoldable pub replay :
    Env → AddRequest → ℕ → ℕ → IngestRecord → IndexStore → Result AddResponse × IndexStore
unfolding persist_reply response persist lookup other_len
replay env op rows current_len r s =
    if other_len (some r.expected_len) op.expected_len
      || not (r.rows == rows)
      || not (r.len == current_len)
    then (
      err (
          status failed_precondition
            (text "operation_id was already used with different ingest metadata")),
      s,
    )
    else if not (other_len (some r.generation) (lookup op.index_id s.generations))
    then (ok (response op rows r.len true r.generation), s)
    else persist_reply (response op rows r.len true) (persist env.io op.index_id s)

unfoldable pub fresh_add :
    Env → AddRequest → ℕ → Index → IndexStore → Result AddResponse × IndexStore
unfolding apply add_chunk other_len
fresh_add env op rows index s =
    if not (is_empty op.operation_id) && other_len (some (index_len index)) op.expected_len
    then (err (status aborted (text "ingest generation conflict")), s)
    else apply env op rows (index_len index) (add_chunk env op index) s

-- The part behind the lock.
unfoldable pub locked_add :
    Env
    → AddRequest × (ℕ × Index)
    → Option IngestRecord
    → IndexStore
    → Result AddResponse × IndexStore
unfolding replay fresh_add
locked_add env (op, (rows, index)) none s = fresh_add env op rows index s
locked_add env (op, (rows, index)) (some r) s =
    if not (is_empty op.operation_id) && text_eq r.operation_id op.operation_id
    then replay env op rows (index_len index) r s
    else fresh_add env op rows index s

unfoldable pub add_staged :
    Env → Result (AddRequest × (ℕ × Index)) → IndexStore → Result AddResponse × IndexStore
unfolding locked_add lookup
add_staged env (err e) s = (err e, s)
add_staged env panic s = (panic, s)
add_staged env (ok staged) s = locked_add env staged (lookup staged.0.index_id s.ingests) s

unfoldable pub add : Env → List AddRequest → IndexStore → Result AddResponse × IndexStore
unfolding stage_add add_staged
add env frames s = add_staged env (stage_add env frames s) s
