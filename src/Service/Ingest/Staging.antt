-- ===== src/Service/Ingest/Staging.antt =====
-- The part of `add` in front of the lock, against a store whose index has grown.
use turbovec_grpc.Prelude.{
  List, Text, [], ap, false, is_empty, is_some, length, not, refl, some, sym, text, text_eq, true,
  ℕ, ◌%◌, ◌&&◌, ◌++◌, ◌+◌, ◌/◌, ◌==◌, ◌||◌, ◌∙◌, ◌∷◌, ◌≡◌,
}
use turbovec_grpc.Status.{
  >>=-eq-ok, invalid_argument, ok, ok-injective, refuse_if, refuse_if-eq-ok, status, ◌>>=◌, ◌>>◌,
}
use turbovec_grpc.Store.{Index}
use turbovec_grpc.Store.Registry.{IndexStore, lookup}
use turbovec_grpc.Service.Ingest.{
  AddRequest, Env, combine, handle, other_metadata, stage_add, validate_operation, validate_shape,
  validate_vector_frame,
}

combine-index_id :
    (env : Env) (head : AddRequest) (chunks : List AddRequest) (op : AddRequest)
    → combine env head chunks ≡ ok op
    → op.index_id ≡ head.index_id
unfolding combine
combine-index_id env head [] op h = ap (λ q. q.index_id) (sym (ok-injective h))
combine-index_id env head (chunk ∷ chunks) op h =
    let (_, h₁) =
      refuse_if-eq-ok (not (is_empty chunk.index_id) && not (text_eq chunk.index_id head.index_id))
        (status invalid_argument (text "every add frame must carry the same index_id"))
        (refuse_if (other_metadata head chunk) (
            status invalid_argument
              (text "every add frame must repeat the same operation metadata"))
          >> (validate_vector_frame env (length head.vectors + length chunk.vectors)
              >> combine env (grown chunk) chunks))
        h in
    let (_, h₂) =
      refuse_if-eq-ok (other_metadata head chunk)
        (status invalid_argument (text "every add frame must repeat the same operation metadata"))
        (validate_vector_frame env (length head.vectors + length chunk.vectors)
          >> combine env (grown chunk) chunks)
        h₁ in
    let (_, _, h₃) =
      >>=-eq-ok (validate_vector_frame env (length head.vectors + length chunk.vectors))
        (λ _. combine env (grown chunk) chunks) h₂ in
    combine-index_id env (grown chunk) chunks op h₃
  where
    grown : AddRequest → AddRequest
    grown chunk = record head {
      vectors = head.vectors ++ chunk.vectors;
      ids = head.ids ++ chunk.ids;
    }

pub true-ne-false : true ≡ false → ⊥
true-ne-false h = cc

handle-some :
    (id : Text) (s : IndexStore) (index : Index)
    → lookup id s.inner ≡ some index
    → handle id s ≡ ok index
unfolding handle
handle-some id s index h = rw (h, handle) refl

rows_of_shape :
    (op : AddRequest) (rows : ℕ) → validate_shape op ≡ ok rows → rows ≡ length op.vectors / op.dim
unfolding validate_shape
rows_of_shape op rows h =
    let (_, e) =
      refuse_if-eq-ok (op.dim == 0 || not (length op.vectors % op.dim == 0)) _
        (ok (length op.vectors / op.dim)) h in
    sym (ok-injective e)

-- The staging reads of the store the root, the index and the labels alone.
pub stage_add-grown :
    (env : Env) (frames : List AddRequest) (s s' : IndexStore) (op : AddRequest) (rows : ℕ)
    (index grown : Index)
    → stage_add env frames s ≡ ok (op, (rows, index))
    → s'.data_root ≡ s.data_root
    → s'.labels ≡ s.labels
    → (lookup op.index_id s'.inner ≡ some grown → stage_add env frames s' ≡ ok (op, (rows, grown)))
      × (rows ≡ length op.vectors / op.dim)
unfolding stage_add
stage_add-grown env [] s s' op rows index grown h a b = absurd cc
stage_add-grown env (head ∷ chunks) s s' op rows index grown h a b =
    let (u₁, e₁, h₁) = >>=-eq-ok (validate_vector_frame env (length head.vectors)) _ h in
    let (i, e₂, h₂) = >>=-eq-ok (handle head.index_id s) _ h₁ in
    let (e₃, h₃) =
      refuse_if-eq-ok (is_some (lookup head.index_id s.labels)) _
        (combine env head chunks >>= λ q.
          validate_shape q >>= λ n. validate_operation s.data_root q n >>= λ _. ok (q, (n, i)))
        h₂ in
    let (op', e₄, h₄) = >>=-eq-ok (combine env head chunks) _ h₃ in
    let (rows', e₅, h₅) = >>=-eq-ok (validate_shape op') _ h₄ in
    let (u₂, e₆, h₆) =
      >>=-eq-ok (validate_operation s.data_root op' rows') (λ _. ok (op', (rows', i))) h₅ in
    let same : op' ≡ op = ap (λ q. q.0) (ok-injective h₆) in
    let same_rows : rows' ≡ rows = ap (λ q. q.1.0) (ok-injective h₆) in
    (
      λ c.
          rw
            (
              e₁,
              handle-some head.index_id s' grown (
                  ap (λ id. lookup id s'.inner)
                    (sym (combine-index_id env head chunks op' e₄) ∙ ap (λ q. q.index_id) same)
                  ∙ c),
              ap (λ m. is_some (lookup head.index_id m)) b ∙ e₃,
              e₄,
              e₅,
              ap (λ d. validate_operation d op' rows') a ∙ e₆,
            )
            (ap (λ q. ok (q, (rows', grown))) same ∙ ap (λ n. ok (op, (n, grown))) same_rows),
      sym same_rows ∙ rows_of_shape op' rows' e₅ ∙ ap (λ q. length q.vectors / q.dim) same,
    )
