-- ===== src/Service/Ingest/Replay.antt =====
-- An ingest that was acknowledged and is sent again.
use turbovec_grpc.Prelude.{
  ==_iff, Bool-cases, List, Option, ap, arith, false, inl, inr, is_empty, length, ltb, none, not,
  refl, some, sym, text, text_eq, text_eq_refl, true, u64_mod, ℕ, ◌&&◌, ◌+◌, ◌/◌, ◌==◌, ◌||◌, ◌∙◌,
  ◌≡◌,
}
use turbovec_grpc.Float.{F32}
use turbovec_grpc.Status.{
  Result, err, err-ne-ok, invalid_argument, ok, ok-injective, panic, panic-ne-ok, refuse_if-eq-ok,
  status,
}
use turbovec_grpc.Fallible.{Fallible, done, fail, panics}
use turbovec_grpc.Store.{Index, IngestRecord, index_len}
use turbovec_grpc.Store.Registry.{IndexStore, lookup, put, set_ingest_record}
use turbovec_grpc.Store.Generations.{unwrap_or}
use turbovec_grpc.Store.Generations.Restart.{lookup-put}
use turbovec_grpc.Service.Ingest.{
  AddRequest, AddResponse, Env, add, add_chunk, add_staged, apply, fresh_add, locked_add,
  not_positional_ids, other_len, persist_reply, record_of, replay, response, stage_add,
}
use turbovec_grpc.Store.Generations.Outcome.{Done, persist-Done}
use turbovec_grpc.Service.Ingest.Staging.{stage_add-grown, true-ne-false}

-- What an ingest leaves that has added its rows and is on record.
record Applied (op : AddRequest) (rows : ℕ) (index : Index) (s : IndexStore) (r : AddResponse)
    (s' : IndexStore) : Type 0 where
  grown : Index
  holds : lookup op.index_id s'.inner ≡ some grown
  longer : index_len grown ≡ index_len index + rows
  same_root : s'.data_root ≡ s.data_root
  same_labels : s'.labels ≡ s.labels
  on_record :
      lookup op.index_id s'.ingests
      ≡ some (record {
        operation_id = op.operation_id;
        expected_len = unwrap_or 0 op.expected_len;
        rows = rows;
        len = index_len index + rows;
        generation = r.generation;
      })
  is_current : lookup op.index_id s'.generations ≡ some r.generation
  says : r ≡ response op rows (index_len index + rows) false r.generation

-- The library adds the rows that it is given.
abbrev pub Grows : Env → Type 0
Grows env =
    (index grown : Index) (vectors : List F32) (dim : ℕ) (ids : List ℕ)
    → env.library.add_2d index vectors dim ids ≡ done grown
    → index_len grown ≡ index_len index + length vectors / dim

persist_reply-Applied :
    (op : AddRequest) (rows : ℕ) (index grown : Index) (s : IndexStore) (r : AddResponse)
    (p : Fallible ℕ × IndexStore)
    → index_len grown ≡ index_len index + rows
    → let s₁ = record s { inner = put op.index_id grown s.inner } in
      let s₂ = set_ingest_record op.index_id (record_of op rows (index_len index + rows) s₁) s₁ in
      Done op.index_id s₂ p
      → (persist_reply (response op rows (index_len index + rows) false) p).0 ≡ ok r
      → Applied op rows index s r
          (persist_reply (response op rows (index_len index + rows) false) p).1
unfolding persist_reply response record_of set_ingest_record
persist_reply-Applied op rows index grown s r (done g, s') l d h =
    let v = d g refl in
    let e : g ≡ r.generation = ap (λ q. q.generation) (ok-injective h) in
    record {
      grown = grown;
      holds = ap (lookup op.index_id) v.same_inner ∙ lookup-put op.index_id grown s.inner;
      longer = l;
      same_root = v.same_root;
      same_labels = v.same_labels;
      on_record =
          ap (lookup op.index_id) v.same_ingests
          ∙ lookup-put op.index_id _ s.ingests
          ∙ ap
              (λ n. some (record {
                operation_id = op.operation_id;
                expected_len = unwrap_or 0 op.expected_len;
                rows = rows;
                len = index_len index + rows;
                generation = n;
              }))
              (sym v.moves ∙ e);
      is_current = v.is_current ∙ ap some e;
      says = sym (ok-injective h) ∙ ap (response op rows (index_len index + rows) false) e;
    }
persist_reply-Applied op rows index grown s r (fail e, s') l d h = absurd (err-ne-ok h)
persist_reply-Applied op rows index grown s r (panics, s') l d h = absurd (panic-ne-ok h)

module _ (env : Env) (grows : Grows env) where
  apply-Applied :
      (op : AddRequest) (rows : ℕ) (index : Index) (s : IndexStore) (r : AddResponse)
      (m : Result Index)
      → is_empty op.operation_id ≡ false
      → ((grown : Index) → m ≡ ok grown → index_len grown ≡ index_len index + rows)
      → (apply env op rows (index_len index) m s).0 ≡ ok r
      → Applied op rows index s r (apply env op rows (index_len index) m s).1
  unfolding apply
  apply-Applied op rows index s r (err e) named l h = absurd (err-ne-ok h)
  apply-Applied op rows index s r panic named l h = absurd (panic-ne-ok h)
  apply-Applied op rows index s r (ok grown) named l h =
      elim (Bool-cases (
        ltb
          (record_of op rows (index_len index + rows)
            (record s { inner = put op.index_id grown s.inner })).generation
          u64_mod)) [
            | inl b ↦
                rw (named, b)
                  (persist_reply-Applied op rows index grown s r _ (l grown refl)
                    (persist-Done env.io op.index_id _) (rw (named, b) at h))
            | inr b ↦ absurd (err-ne-ok (rw (named, b) at h))
          ]

  add_chunk-longer :
      (op : AddRequest) (index grown : Index)
      → add_chunk env op index ≡ ok grown
      → index_len grown ≡ index_len index + length op.vectors / op.dim
  unfolding add_chunk
  add_chunk-longer op index grown h =
      let (_, h₁) =
        refuse_if-eq-ok (not_positional_ids index op.ids)
          (status invalid_argument (text "ids must be empty for a positional index"))
          (added (env.library.add_2d index op.vectors op.dim op.ids)) h in
      from_library (env.library.add_2d index op.vectors op.dim op.ids) refl h₁
    where
      added : Fallible Index → Result Index
      added m = elim m [
        | done grown ↦ ok grown
        | fail e ↦ err (status invalid_argument e)
        | panics ↦ panic
      ]

      from_library :
          (m : Fallible Index)
          → env.library.add_2d index op.vectors op.dim op.ids ≡ m
          → added m ≡ ok grown
          → index_len grown ≡ index_len index + length op.vectors / op.dim
      from_library (done i) e k =
          grows index grown op.vectors op.dim op.ids (e ∙ ap done (ok-injective k))
      from_library (fail x) e k = absurd (err-ne-ok k)
      from_library panics e k = absurd (panic-ne-ok k)

  -- A fresh named operation: the length it expected, and what it leaves.
  fresh_add-Applied :
      (op : AddRequest) (rows : ℕ) (index : Index) (s : IndexStore) (r : AddResponse)
      → is_empty op.operation_id ≡ false
      → rows ≡ length op.vectors / op.dim
      → (fresh_add env op rows index s).0 ≡ ok r
      → (other_len (some (index_len index)) op.expected_len ≡ false)
        × Applied op rows index s r (fresh_add env op rows index s).1
  unfolding fresh_add
  fresh_add-Applied op rows index s r named e h =
      elim (Bool-cases (other_len (some (index_len index)) op.expected_len)) [
        | inl b ↦ absurd (err-ne-ok (rw (named, b) at h))
        | inr b ↦
            rw (named, b)
              (
                refl,
                apply-Applied op rows index s r (add_chunk env op index) named
                    (λ grown k.
                      add_chunk-longer op index grown k ∙ ap (λ n. index_len index + n) (sym e))
                    (rw (named, b) at h),
              )
      ]

  other_len-false : (n : ℕ) (o : Option ℕ) → other_len (some n) o ≡ false → o ≡ some n
  unfolding other_len
  other_len-false n none h = absurd cc
  other_len-false n (some m) h = ground arith

  other_len-same : (n : ℕ) → other_len (some n) (some n) ≡ false
  unfolding other_len
  other_len-same n = rw ((==_iff n n).1 refl) refl

  replay-again :
      (op : AddRequest) (rows current_len : ℕ) (q : IngestRecord) (s : IndexStore)
      → other_len (some q.expected_len) op.expected_len ≡ false
      → q.rows ≡ rows
      → q.len ≡ current_len
      → lookup op.index_id s.generations ≡ some q.generation
      → replay env op rows current_len q s ≡ (ok (response op rows q.len true q.generation), s)
  unfolding replay
  replay-again op rows current_len q s a b c d =
      rw
        (
          a,
          (==_iff q.rows rows).1 b,
          (==_iff q.len current_len).1 c,
          ap (other_len (some q.generation)) d ∙ other_len-same q.generation,
        )
        refl

  expected_again :
      (n : ℕ) (o : Option ℕ)
      → other_len (some n) o ≡ false
      → other_len (some (unwrap_or 0 o)) o ≡ false
  unfolding other_len
  expected_again n none h = absurd cc
  expected_again n (some m) h = other_len-same m

  -- The same operation behind one that was applied.
  locked_add-again :
      (op : AddRequest) (rows : ℕ) (index : Index) (s : IndexStore) (r : AddResponse)
      (s' : IndexStore) (v : Applied op rows index s r s')
      → is_empty op.operation_id ≡ false
      → other_len (some (index_len index)) op.expected_len ≡ false
      → locked_add env (op, (rows, v.grown)) (lookup op.index_id s'.ingests) s'
        ≡ (ok (record r { replayed = true }), s')
  unfolding locked_add response
  locked_add-again op rows index s r s' v named e =
      ap (λ o. locked_add env (op, (rows, v.grown)) o s') v.on_record
      ∙ rw
          (
            named,
            text_eq_refl op.operation_id,
            replay-again op rows (index_len v.grown)
                (record {
                  operation_id = op.operation_id;
                  expected_len = unwrap_or 0 op.expected_len;
                  rows = rows;
                  len = index_len index + rows;
                  generation = r.generation;
                })
                s' (expected_again (index_len index) op.expected_len e) refl (sym v.longer)
                v.is_current,
          )
          (ap (λ q. (ok (record q { replayed = true }), s')) (sym v.says))

  persist_reply-replayed :
      (op : AddRequest) (rows len : ℕ) (r : AddResponse) (p : Fallible ℕ × IndexStore)
      → (persist_reply (response op rows len true) p).0 ≡ ok r
      → r.replayed ≡ true
  unfolding persist_reply response
  persist_reply-replayed op rows len r (done g, s) h = ap (λ q. q.replayed) (sym (ok-injective h))
  persist_reply-replayed op rows len r (fail e, s) h = absurd (err-ne-ok h)
  persist_reply-replayed op rows len r (panics, s) h = absurd (panic-ne-ok h)

  replay-replayed :
      (op : AddRequest) (rows current_len : ℕ) (q : IngestRecord) (s : IndexStore) (r : AddResponse)
      → (replay env op rows current_len q s).0 ≡ ok r
      → r.replayed ≡ true
  unfolding replay response
  replay-replayed op rows current_len q s r h =
      elim (Bool-cases (
        other_len (some q.expected_len) op.expected_len
        || not (q.rows == rows)
        || not (q.len == current_len))) [
          | inl b ↦ absurd (err-ne-ok (rw b at h))
          | inr b ↦
              elim (Bool-cases
                (not (other_len (some q.generation) (lookup op.index_id s.generations)))) [
                  | inl c ↦ ap (λ x. x.replayed) (sym (ok-injective (rw (b, c) at h)))
                  | inr c ↦ persist_reply-replayed op rows q.len r _ (rw (b, c) at h)
                ]
        ]

  locked_add-Applied :
      (op : AddRequest) (rows : ℕ) (index : Index) (o : Option IngestRecord) (s : IndexStore)
      (r : AddResponse)
      → is_empty op.operation_id ≡ false
      → rows ≡ length op.vectors / op.dim
      → (locked_add env (op, (rows, index)) o s).0 ≡ ok r
      → r.replayed ≡ false
      → (other_len (some (index_len index)) op.expected_len ≡ false)
        × Applied op rows index s r (locked_add env (op, (rows, index)) o s).1
  unfolding locked_add
  locked_add-Applied op rows index none s r named e h f =
      fresh_add-Applied op rows index s r named e h
  locked_add-Applied op rows index (some q) s r named e h f =
      elim (Bool-cases (text_eq q.operation_id op.operation_id)) [
        | inl b ↦ absurd (
            true-ne-false
              (sym (replay-replayed op rows (index_len index) q s r (rw (named, b) at h)) ∙ f))
        | inr b ↦
            let another : (not (is_empty op.operation_id) && text_eq q.operation_id op.operation_id)
                ≡ false =
              rw (named, b) refl in
            rw another (fresh_add-Applied op rows index s r named e (rw another at h))
      ]

  -- A named ingest that was applied and acknowledged, and is sent again: it adds nothing, changes
  -- nothing, and answers the same with `replayed` set.
  pub add-replay :
      (frames : List AddRequest) (s : IndexStore) (op : AddRequest) (rows : ℕ) (index : Index)
      (r : AddResponse)
      → stage_add env frames s ≡ ok (op, (rows, index))
      → is_empty op.operation_id ≡ false
      → (add env frames s).0 ≡ ok r
      → r.replayed ≡ false
      → add env frames (add env frames s).1
        ≡ (ok (record r { replayed = true }), (add env frames s).1)
  unfolding add add_staged
  add-replay frames s op rows index r staged named h f =
      let s' = (locked_add env (op, (rows, index)) (lookup op.index_id s.ingests) s).1 in
      let (_, shaped) = stage_add-grown env frames s s op rows index index staged refl refl in
      let (expected, v) =
        locked_add-Applied op rows index (lookup op.index_id s.ingests) s r named shaped
          (rw staged at h) f in
      let (again, _) =
        stage_add-grown env frames s s' op rows index v.grown staged v.same_root v.same_labels in
      rw staged (
        ap (λ m. add_staged env m s') (again v.holds)
        ∙ locked_add-again op rows index s r s' v named expected)
