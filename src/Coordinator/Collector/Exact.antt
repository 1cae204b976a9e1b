-- ===== src/Coordinator/Collector/Exact.antt =====
-- One query over shards that scan at their own pace: the coordinator's answer against the rows
-- that the shards hold.
use mathlib.Core.List.{append-nil, append_assoc, Perm}
use turbovec_grpc.Prelude.{
  All, All-append, All-map, Bool-cases, List, Option, Text, [], ap, append-nil, append_assoc, arith,
  false, inl, inr, last, length, refl, some, subst, sym, take, true, ℕ, ◌++◌, ◌<◌, ◌==◌, ◌∙◌, ◌∷◌,
  ◌≡◌, ◌≤◌,
}
use turbovec_grpc.Float.{
  F32, float_gt, float_gt_irrefl, float_gt_trans, float_gt→not_ge, float_gt→total_rank_lt, is_nan,
  total_rank, total_rank→not_gt,
}
use turbovec_grpc.Status.{>>=-eq-ok, err-ne-ok, ok, ok-injective}
use turbovec_grpc.Wire.{Neighbour}
use turbovec_grpc.TopK.{IsSorted, before, push_all, sort}
use turbovec_grpc.TopK.Offers.{All-push_all, push_all-append, push_all-skip}
use turbovec_grpc.TopK.Bounded.{All-last, All-take}
use turbovec_grpc.TopK.Spec.{IsTopK, sort-IsSorted, sort-perm, sort_of_IsSorted, take-sort-IsTopK}
use turbovec_grpc.Coordinator.{Pinned, Probe}
use turbovec_grpc.Coordinator.Collector.{
  Collector, HeapCandidate, Network, QueryOptions, ShardControl, StreamEvent, candidate_cmp,
  candidates, drain, floor_or_lowest, initial_state, neighbours, on_event, open_shards,
  stream_query,
}
use turbovec_grpc.Coordinator.Collector.Ranking.{candidate_cmp-IsOrd, lower_not_before}
use turbovec_grpc.Coordinator.Collector.Rows.{event_rows}
use turbovec_grpc.Coordinator.Collector.Completion.{Completes, drain-Completes}
use turbovec_grpc.Coordinator.Collector.Invariant.{
  Inv, at_least, at_least-append, heap-IsSorted, initial-Inv, on_event-Inv,
}

-- A row that the query's first floor admits: turbovec's floors are inclusive.
abbrev pub Admitted : F32 → HeapCandidate → Type 0
Admitted lowest c = float_gt lowest c.score ≡ false

module _ (options : QueryOptions) (k : ℕ) (shards : List Probe) (lowest : F32) where
  -- A query under way, with the rows that were sent and those that a shard left out. A shard
  -- leaves a row out when the row is below a floor that the shard was told; such a floor is never
  -- above the one that is published now. Events and omissions come in any order.
  pub data Run : Collector → List HeapCandidate → List HeapCandidate → Type 0 where
    begin :
        (outbound : List (Option ShardControl)) → Run (initial_state options shards outbound) [] []
    deliver :
        {s : Collector} {sent skipped : List HeapCandidate}
        → Run s sent skipped
        → (e : StreamEvent) (s' : Collector) → on_event options k shards e s ≡ ok s'
        → All (Admitted lowest) (event_rows options.stable_label_order e)
        → Run s' (sent ++ event_rows options.stable_label_order e) skipped
    skip :
        {s : Collector} {sent skipped : List HeapCandidate}
        → Run s sent skipped
        → (c : HeapCandidate) (floor : F32) → float_gt floor s.published_floor ≡ false
        → float_gt floor c.score ≡ true
        → Admitted lowest c
        → Run s sent (c ∷ skipped)

  abbrev Below : F32 → List HeapCandidate → Type 0
  Below floor = All (λ c. float_gt floor c.score ≡ true)

  record RunInv (s : Collector) (sent skipped : List HeapCandidate) : Type 0 where
    collected : Inv options k lowest sent s
    admitted : All (Admitted lowest) sent
    admitted_too : All (Admitted lowest) skipped
    below : Below s.published_floor skipped

  Run-RunInv :
      {s : Collector} {sent skipped : List HeapCandidate}
      → lowest ≡ floor_or_lowest options.initial_floor
      → is_nan lowest ≡ false
      → Run s sent skipped
      → RunInv s sent skipped
  Run-RunInv e real (begin outbound) = record {
    collected = initial-Inv options k lowest shards outbound e real;
    admitted = tt;
    admitted_too = tt;
    below = tt;
  }
  Run-RunInv e real (deliver {s} {sent} {skipped} r ev s' step ok_rows) =
      let v = Run-RunInv e real r in
      let (inv, up) = on_event-Inv options k lowest shards ev sent s s' v.collected step in
      record {
        collected = inv;
        admitted = All-append (Admitted lowest) sent _ v.admitted ok_rows;
        admitted_too = v.admitted_too;
        below =
            All-map (λ c. float_gt s.published_floor c.score ≡ true)
              (λ c. float_gt s'.published_floor c.score ≡ true) skipped (λ c g. up c.score g)
              v.below;
      }
  Run-RunInv e real (skip {s} {sent} {skipped} r c floor known low fine) =
      let v = Run-RunInv e real r in
      record {
        collected = v.collected;
        admitted = v.admitted;
        admitted_too = (fine, v.admitted_too);
        below = (
          float_gt_trans floor s.published_floor c.score v.collected.floor_real known low,
          v.below,
        );
      }

  -- Rows left out stand behind a full heap.
  behind_heap :
      (floor : F32) (c : HeapCandidate) (heap : List HeapCandidate)
      → float_gt floor c.score ≡ true
      → All (λ x. total_rank floor ≤ total_rank x.score) heap
      → All (λ x. before candidate_cmp c x ≡ false) heap
  behind_heap floor c heap g h =
      All-map (λ x. total_rank floor ≤ total_rank x.score) (λ x. before candidate_cmp c x ≡ false)
        heap
        (λ x above. lower_not_before c x (omega (arith, float_gt→total_rank_lt floor c.score g))) h

  -- With no floor raised nothing admitted was left out.
  none_skipped :
      (skipped : List HeapCandidate)
      → All (Admitted lowest) skipped
      → Below lowest skipped
      → skipped ≡ []
  none_skipped [] a b = refl
  none_skipped (c ∷ cs) a b = cc (a.0, b.0)

  -- The heap is the front of all the rows, not only of those that were sent.
  heap-front_all :
      (s : Collector) (sent skipped : List HeapCandidate)
      → RunInv s sent skipped
      → s.heap ≡ take k (sort candidate_cmp (sent ++ skipped))
  unfolding sort
  heap-front_all s sent skipped v = elim v.collected.rooted [
    | inl e ↦
        let gone : skipped ≡ [] =
          none_skipped skipped v.admitted_too (subst (λ f. Below f skipped) e v.below) in
        rw (gone, append-nil) v.collected.heap_front
    | inr r ↦
        let front = v.collected.heap_front in
        front
        ∙ sym (
            ap (take k) (push_all-append candidate_cmp [] sent skipped)
            ∙ push_all-skip candidate_cmp k (push_all candidate_cmp [] sent) skipped
                (ap length (sym front) ∙ r.full)
                (All-map (λ c. float_gt s.published_floor c.score ≡ true)
                  (λ c.
                    All (λ x. before candidate_cmp c x ≡ false)
                      (take k (push_all candidate_cmp [] sent)))
                  skipped
                  (λ c g.
                    subst (All (λ x. before candidate_cmp c x ≡ false)) front
                      (behind_heap s.published_floor c s.heap g r.above))
                  v.below))
  ]

  skipped-Below :
      (floor b : F32) (skipped : List HeapCandidate)
      → is_nan b ≡ false
      → float_gt floor b ≡ false
      → Below floor skipped
      → at_least b skipped ≡ []
  skipped-Below floor b [] hb h g = refl
  skipped-Below floor b (c ∷ cs) hb h g =
      ground (arith, float_gt→not_ge floor c.score b hb g.0 h, skipped-Below floor b cs hb h g.1)

  -- A candidate of the heap is at or above the published floor, and is a number.
  heap_at_floor :
      (s : Collector) (sent skipped : List HeapCandidate) (root : HeapCandidate)
      → RunInv s sent skipped
      → last s.heap ≡ some root
      → (is_nan root.score ≡ false) × (float_gt s.published_floor root.score ≡ false)
  heap_at_floor s sent skipped root v e = (
    in_heap (λ c. is_nan c.score ≡ false) v.collected.real,
    elim v.collected.rooted [
      | inl low ↦ rw low (in_heap (Admitted lowest) v.admitted)
      | inr r ↦
          total_rank→not_gt s.published_floor root.score (
            All-last (λ c. total_rank s.published_floor ≤ total_rank c.score) s.heap root r.above e)
    ],
  )
    where
      in_heap : (P : HeapCandidate → Type 0) → All P sent → P root
      in_heap P h =
          All-last P (take k (push_all candidate_cmp [] sent)) root
            (All-take P k _ (All-push_all candidate_cmp P [] sent tt h))
            (rw (← v.collected.heap_front) e)

  module _ (start_floor : lowest ≡ floor_or_lowest options.initial_floor)
      (start_real : is_nan lowest ≡ false) where
    -- Whatever the order of events, whatever the shards left out below a published floor and
    -- however late a floor reached them, the answer is the best `k` of all the admitted rows,
    -- sent or not, in order: what one index holding all of them would give.
    pub answer-IsTopK :
        {s : Collector} {sent skipped : List HeapCandidate}
        → options.tie_complete ≡ false
        → Run s sent skipped
        → IsTopK candidate_cmp k (sent ++ skipped) (sort candidate_cmp (candidates options k s))
    unfolding candidates
    answer-IsTopK {s} {sent} {skipped} t r =
        let v = Run-RunInv start_floor start_real r in
        let rows : List HeapCandidate = sent ++ skipped in
        rw
          (
            t,
            sort_of_IsSorted candidate_cmp s.heap
                (heap-IsSorted options k lowest sent s v.collected),
            heap-front_all s sent skipped v,
          )
          (take-sort-IsTopK candidate_cmp candidate_cmp-IsOrd k rows)

    -- With `tie_complete` the answer holds, in order, exactly the admitted rows whose score is at
    -- least that of the `k`-th best row of all (of the last one, where there are fewer).
    pub answer-ties :
        {s : Collector} {sent skipped : List HeapCandidate} (root : HeapCandidate)
        → options.tie_complete ≡ true
        → Run s sent skipped
        → last (take k (sort candidate_cmp (sent ++ skipped))) ≡ some root
        → Perm (sort candidate_cmp (candidates options k s)) (at_least root.score (sent ++ skipped))
          × IsSorted candidate_cmp (sort candidate_cmp (candidates options k s))
    unfolding candidates
    answer-ties {s} {sent} {skipped} root t r e =
        let v = Run-RunInv start_floor start_real r in
        let at_root : last s.heap ≡ some root = rw (heap-front_all s sent skipped v) e in
        let (real, above) = heap_at_floor s sent skipped root v at_root in
        let same : at_least root.score s.tie_candidates ≡ at_least root.score (sent ++ skipped) =
          v.collected.ties t root.score real above
          ∙ sym (
              at_least-append root.score sent skipped
              ∙ (ap (λ xs. at_least root.score sent ++ xs)
                    (skipped-Below s.published_floor root.score skipped real above v.below)
                  ∙ append-nil (at_least root.score sent))) in
        rw (t, at_root, same)
          (sort-perm candidate_cmp _, sort-IsSorted candidate_cmp candidate_cmp-IsOrd _)

  -- The rows of events in turn.
  abbrev pub rows_of : List StreamEvent → List HeapCandidate
  rows_of [] = []
  rows_of (e ∷ es) = event_rows options.stable_label_order e ++ rows_of es

  -- A loop that returns has taken a first part of the events and has heard every shard out.
  drain-Run :
      (events : List StreamEvent) {s s' : Collector} {sent : List HeapCandidate}
      → Run s sent []
      → All (λ e. All (Admitted lowest) (event_rows options.stable_label_order e)) events
      → drain options k shards events s ≡ ok s'
      → (taken left : List StreamEvent) × (events ≡ taken ++ left)
        × Run s' (sent ++ rows_of taken) []
        × (drain options k shards taken s ≡ ok s')
  unfolding drain
  drain-Run [] {s} {s'} {sent} r fine h = elim (Bool-cases (s.remaining == 0)) [
    | inl z ↦
        let same : s ≡ s' = ok-injective (rw z at h) in
        ([], [], refl, rw append-nil (subst (λ q. Run q sent []) same r), rw z (ap ok same))
    | inr z ↦ absurd (err-ne-ok (rw z at h))
  ]
  drain-Run (e ∷ es) {s} {s'} {sent} r fine h = elim (Bool-cases (s.remaining == 0)) [
    | inl z ↦
        let same : s ≡ s' = ok-injective (rw z at h) in
        ([], e ∷ es, refl, rw append-nil (subst (λ q. Run q sent []) same r), rw z (ap ok same))
    | inr z ↦
        let (next, step, later) = >>=-eq-ok (on_event options k shards e s) _ (rw z at h) in
        let (taken, left, split, run, done) =
          drain-Run es (deliver r e next step fine.0) fine.1 later in
        (
          e ∷ taken,
          left,
          ap (◌∷◌ e) split,
          rw (← append_assoc sent (event_rows options.stable_label_order e) (rows_of taken)) run,
          rw (z, step) done,
        )
  ]

  skip-All :
      {s : Collector} {sent : List HeapCandidate} (skipped : List HeapCandidate)
      → All (λ c. Admitted lowest c × (float_gt s.published_floor c.score ≡ true)) skipped
      → Run s sent []
      → Run s sent skipped
  skip-All [] h r = r
  skip-All {s} (c ∷ cs) h r =
      skip (skip-All cs h.1 r) c s.published_floor (float_gt_irrefl s.published_floor) h.0.1 h.0.0

-- `stream_query` itself. When it returns, it has opened a stream on every shard and consumed a
-- first part of the events, which holds the completion of every shard. What it returns names the
-- best candidates of the state that the loop reaches on that part; and for any rows that were left
-- out because they are admitted but below the floor published in that state, those candidates are
-- the best `k` of the rows left out and the rows received, in order.
pub stream_query-IsTopK :
    (net : Network) (pinned : Pinned) (vector : List F32) (k : ℕ) (options : QueryOptions)
    (request_id : Text) (events : List StreamEvent) (lowest : F32) {answer : List Neighbour}
    → lowest ≡ floor_or_lowest options.initial_floor
    → is_nan lowest ≡ false
    → options.tie_complete ≡ false
    → All (λ e. All (Admitted lowest) (event_rows options.stable_label_order e)) events
    → stream_query net pinned vector k options request_id events ≡ ok answer
    → (taken left : List StreamEvent) × (outbound : List (Option ShardControl)) × (s : Collector)
      × (events ≡ taken ++ left)
      × ((rank : ℕ) → rank < length pinned.shards → Completes rank taken)
      × (open_shards net vector request_id options pinned.shards ≡ ok outbound)
      × (drain options k pinned.shards taken (initial_state options pinned.shards outbound) ≡ ok s)
      × (neighbours pinned.shards (sort candidate_cmp (candidates options k s)) ≡ ok answer)
      × ((skipped : List HeapCandidate)
          → All (λ c. Admitted lowest c × (float_gt s.published_floor c.score ≡ true)) skipped
          → IsTopK candidate_cmp k
              (rows_of options k pinned.shards lowest taken ++ skipped)
              (sort candidate_cmp (candidates options k s)))
unfolding stream_query
stream_query-IsTopK net pinned vector k options request_id events lowest e real t fine h =
    let (outbound, opened, h₁) =
      >>=-eq-ok (open_shards net vector request_id options pinned.shards) _ h in
    let (s, run_ok, h₂) =
      >>=-eq-ok
        (drain options k pinned.shards events (initial_state options pinned.shards outbound)) _
        h₁ in
    let (taken, left, split, run, done) =
      drain-Run options k pinned.shards lowest events (begin outbound) fine run_ok in
    (
      taken,
      left,
      outbound,
      s,
      split,
      drain-Completes options k pinned.shards outbound taken s done,
      opened,
      done,
      h₂,
      λ skipped low.
          answer-IsTopK options k pinned.shards lowest e real t
            (skip-All options k pinned.shards lowest skipped low run),
    )
