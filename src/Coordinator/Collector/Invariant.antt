-- ===== src/Coordinator/Collector/Invariant.antt =====
-- What the collector's state says of the rows received so far.
use mathlib.Core.List.{append-nil}
use turbovec_grpc.Prelude.{
  ==_iff, All, All-append, All-map, Bool, Bool-cases, List, Option, Option-cases, Text, [], ap,
  append-nil, arith, false, get_elem?, inl, inr, is_empty, last, length, length-take, none, not,
  refl, retain, some, subst, sym, take, take_all, true, ℕ, ◌&&◌, ◌++◌, ◌==◌, ◌∙◌, ◌∷◌, ◌≡◌, ◌≤◌,
  ◌⊎◌,
}
use turbovec_grpc.Float.{
  F32, float_ge, float_ge_trans, float_gt, float_gt_asymm, float_gt_below, float_gt_trans,
  float_gt→not_nan, is_nan, total_rank,
}
use turbovec_grpc.Status.{>>=-eq-ok, expect, ok, ok-injective, panic-ne-ok, refuse_if-eq-ok}
use turbovec_grpc.Wire.{StreamSearchBatch, absent, batch, summary}
use turbovec_grpc.TopK.{IsSorted, before, insert, offer, offer_all, push_all}
use turbovec_grpc.TopK.Offers.{
  All-offer, insert-IsSorted, last-before, offer_all_lem, offer_lem, push_all-IsSorted,
  push_all-append, take-IsSorted, take-IsSorted-push_all,
}
use turbovec_grpc.TopK.Bounded.{length-insert}
use turbovec_grpc.Coordinator.{Probe}
use turbovec_grpc.Coordinator.Collector.{
  Collector, HeapCandidate, QueryOptions, ShardControl, StreamEvent, broadcast, candidate_cmp,
  closed, error, floor_or_lowest, initial_state, message, misaligned, on_batch, on_event,
  on_summary, publish, publish_root, raise_published, scan_rows,
}
use turbovec_grpc.Coordinator.Collector.Ranking.{before_rank, candidate_cmp-IsOrd, not_before_rank}
use turbovec_grpc.Coordinator.Collector.Rows.{event_rows, rows_from, scan_rows_lem}

abbrev pub AllReal : List HeapCandidate → Type 0
AllReal = All (λ c. is_nan c.score ≡ false)

-- A full heap whose every item is at or above a floor.
pub record IsRooted (k : ℕ) (floor : F32) (heap : List HeapCandidate) : Type 0 where
  pub full : length heap ≡ k
  pub above : All (λ c. total_rank floor ≤ total_rank c.score) heap

-- The rows at or above a score.
abbrev pub at_least : F32 → List HeapCandidate → List HeapCandidate
at_least b = retain (λ c. float_ge c.score b)

-- `lowest` is the floor that the query began with, `rows` is all that the shards have sent.
pub record Inv (options : QueryOptions) (k : ℕ) (lowest : F32) (rows : List HeapCandidate)
    (s : Collector) : Type 0 where
  pub heap_front : s.heap ≡ take k (push_all candidate_cmp [] rows)
  pub real : AllReal rows
  pub floor_real : is_nan s.published_floor ≡ false
  pub rooted : (s.published_floor ≡ lowest) ⊎ IsRooted k s.published_floor s.heap
  pub ties :
      options.tie_complete ≡ true
      → (b : F32) → is_nan b ≡ false
      → float_gt s.published_floor b ≡ false
      → at_least b s.tie_candidates ≡ at_least b rows

pub at_least-append :
    (b : F32) (xs ys : List HeapCandidate) → at_least b (xs ++ ys) ≡ at_least b xs ++ at_least b ys
at_least-append b [] ys = refl
at_least-append b (x ∷ xs) ys = ground (arith, at_least-append b xs ys)

-- Dropping what is below a lower floor first changes nothing.
at_least-at_least :
    (b f : F32) (xs : List HeapCandidate)
    → is_nan b ≡ false
    → is_nan f ≡ false
    → float_gt f b ≡ false
    → at_least b (at_least f xs) ≡ at_least b xs
at_least-at_least b f [] hb hf h = refl
at_least-at_least b f (x ∷ xs) hb hf h =
    ground (arith, at_least-at_least b f xs hb hf h, float_ge_trans x.score b f)

offer_all-IsRooted :
    (k : ℕ) (floor : F32) (heap cs : List HeapCandidate)
    → IsSorted candidate_cmp heap
    → IsRooted k floor heap
    → IsRooted k floor (offer_all candidate_cmp k heap cs)
unfolding offer_all
offer_all-IsRooted k floor heap [] s r = r
offer_all-IsRooted k floor heap (c ∷ cs) s r =
    let e : offer candidate_cmp k c heap ≡ take k (insert candidate_cmp c heap) =
      offer_lem candidate_cmp candidate_cmp-IsOrd k c heap s (omega (arith, r.full)) in
    offer_all-IsRooted k floor (offer candidate_cmp k c heap) cs
      (rw e (
        take-IsSorted candidate_cmp k _
          (insert-IsSorted candidate_cmp candidate_cmp-IsOrd c heap s)))
      (record {
        full = rw e (
            omega (
              arith,
              r.full,
              length-take k (insert candidate_cmp c heap),
              length-insert candidate_cmp c heap,
            ));
        above =
            All-offer candidate_cmp (λ c. total_rank floor ≤ total_rank c.score) k c heap r.full
              (λ w h b. omega (arith, before_rank c w b)) r.above;
      })

module _ (options : QueryOptions) (k : ℕ) (lowest : F32) where
  pub initial-Inv :
      (shards : List Probe) (outbound : List (Option ShardControl))
      → lowest ≡ floor_or_lowest options.initial_floor
      → is_nan lowest ≡ false
      → Inv options k lowest [] (initial_state options shards outbound)
  unfolding initial_state push_all
  initial-Inv shards outbound e real = record {
    heap_front = sym (take_all k [] (omega arith));
    real = tt;
    floor_real = rw (← e) real;
    rooted = inl (sym e);
    ties = λ t b hb h. refl;
  }

  pub heap-IsSorted :
      (rows : List HeapCandidate) (s : Collector)
      → Inv options k lowest rows s
      → IsSorted candidate_cmp s.heap
  heap-IsSorted rows s v =
      rw v.heap_front (take-IsSorted-push_all candidate_cmp candidate_cmp-IsOrd k rows)

  -- The rows of a batch, before the floor is looked at.
  absorb-Inv :
      (rows cs : List HeapCandidate) (s : Collector) (acc : List HeapCandidate × List HeapCandidate)
      → Inv options k lowest rows s
      → acc.0 ≡ offer_all candidate_cmp k s.heap cs
      → (options.tie_complete ≡ true → acc.1 ≡ s.tie_candidates ++ cs)
      → AllReal cs
      → Inv options k lowest (rows ++ cs) (record s { heap = acc.0; tie_candidates = acc.1 })
  absorb-Inv rows cs s acc v eh et real = record {
    heap_front =
        eh
        ∙ rw (v.heap_front, push_all-append candidate_cmp [] rows cs)
            (offer_all_lem candidate_cmp candidate_cmp-IsOrd k (push_all candidate_cmp [] rows) cs
              (push_all-IsSorted candidate_cmp candidate_cmp-IsOrd [] rows tt));
    real = All-append (λ c. is_nan c.score ≡ false) rows cs v.real real;
    floor_real = v.floor_real;
    rooted = elim v.rooted [
      | inl e ↦ inl e
      | inr r ↦ inr (
          subst (IsRooted k s.published_floor) (sym eh)
            (offer_all-IsRooted k s.published_floor s.heap cs (heap-IsSorted rows s v) r))
    ];
    ties = λ t b hb h.
        ap (at_least b) (et t)
        ∙ (at_least-append b s.tie_candidates cs
            ∙ (ap (λ xs. xs ++ at_least b cs) (v.ties t b hb h) ∙ sym (at_least-append b rows cs)));
  }

  root-IsRooted :
      (heap : List HeapCandidate) (root : HeapCandidate)
      → IsSorted candidate_cmp heap
      → length heap ≡ k
      → last heap ≡ some root
      → IsRooted k root.score heap
  root-IsRooted heap root s full e = record {
    full = full;
    above =
        All-map (λ x. before candidate_cmp root x ≡ false)
          (λ x. total_rank root.score ≤ total_rank x.score) heap (λ x h. not_before_rank root x h)
          (last-before candidate_cmp candidate_cmp-IsOrd root heap s e);
  }

  -- Raising the floor to the root of a full heap.
  raise_published-Inv :
      (rows : List HeapCandidate) (s s' : Collector) (root : HeapCandidate)
      → Inv options k lowest rows s
      → length s.heap ≡ k
      → last s.heap ≡ some root
      → float_gt root.score s.published_floor ≡ true
      → raise_published options k root.score s ≡ ok s'
      → Inv options k lowest rows s' × (s'.published_floor ≡ root.score)
  unfolding raise_published
  raise_published-Inv rows s s' root v full e g h =
      let (outbound, _, h₁) = >>=-eq-ok (broadcast root.score s.completed s.outbound) _ h in
      subst (λ z. Inv options k lowest rows z × (z.published_floor ≡ root.score)) (ok-injective h₁)
        (
          record {
            heap_front = v.heap_front;
            real = v.real;
            floor_real = (float_gt→not_nan _ _ g).0;
            rooted = inr (root-IsRooted s.heap root (heap-IsSorted rows s v) full e);
            ties = λ t b hb h. rw t (
                at_least-at_least b root.score s.tie_candidates hb (float_gt→not_nan _ _ g).0 h
                ∙ v.ties t b hb (float_gt_below root.score s.published_floor b hb g h));
          },
          refl,
        )

  -- A floor that is published never falls.
  abbrev pub NotLower : F32 → F32 → Type 0
  NotLower old new = (s : F32) → float_gt old s ≡ true → float_gt new s ≡ true

  publish-Inv :
      (rows : List HeapCandidate) (s s' : Collector)
      → Inv options k lowest rows s
      → publish options k s ≡ ok s'
      → Inv options k lowest rows s' × NotLower s.published_floor s'.published_floor
  unfolding publish publish_root
  publish-Inv rows s s' v h = elim (Bool-cases (length s.heap == k)) [
    | inr e ↦
        subst (λ z. Inv options k lowest rows z × NotLower s.published_floor z.published_floor)
          (ok-injective (rw e at h)) (v, λ x g. g)
    | inl e ↦ root_case (Option-cases (last s.heap)) (rw e at h) ((==_iff _ _).0 e)
  ]
    where
      root_case :
          ((last s.heap ≡ none) ⊎ ((w : HeapCandidate) × (last s.heap ≡ some w)))
          → publish_root options k (last s.heap) s ≡ ok s'
          → length s.heap ≡ k
          → Inv options k lowest rows s' × NotLower s.published_floor s'.published_floor
      root_case (inl e) h full = absurd (panic-ne-ok (rw (e, publish_root) at h))
      root_case (inr (root, e)) h full = elim (Bool-cases (float_gt root.score s.published_floor)) [
        | inr b ↦
            subst (λ z. Inv options k lowest rows z × NotLower s.published_floor z.published_floor)
              (ok-injective (rw (b, publish_root) at (rw (e, publish_root) at h))) (v, λ x g. g)
        | inl b ↦
            let (v', same) =
              raise_published-Inv rows s s' root v full e b
                (rw (b, publish_root) at (rw (e, publish_root) at h)) in
            (
              v',
              λ x g. rw same (
                  float_gt_trans s.published_floor root.score x (float_gt→not_nan _ _ b).0
                    (float_gt_asymm _ _ b) g),
            )
      ]

  on_batch-Inv :
      (address : Text) (rank : ℕ) (b : StreamSearchBatch) (rows : List HeapCandidate)
      (s s' : Collector)
      → Inv options k lowest rows s
      → on_batch options k address rank b s ≡ ok s'
      → Inv options k lowest
          (rows ++ rows_from options.stable_label_order rank b.labels 0 b.scores b.slots)
          s'
        × NotLower s.published_floor s'.published_floor
  unfolding on_batch
  on_batch-Inv address rank b rows s s' v h =
      let (done, _, h₁) = >>=-eq-ok (expect (get_elem? s.completed rank)) _ h in
      let (_, h₂) = refuse_if-eq-ok done _ _ h₁ in
      let (_, h₃) = refuse_if-eq-ok (misaligned options k b) _ _ h₂ in
      let (_, h₄) =
        refuse_if-eq-ok
          (options.stable_label_order && (is_empty b.labels && not (is_empty b.scores))) _ _ h₃ in
      let (acc, e, h₅) =
        >>=-eq-ok
          (scan_rows options k address rank b.labels 0 b.scores b.slots (s.heap, s.tie_candidates))
          _ h₄ in
      let (eh, et, real) =
        scan_rows_lem options k address rank b.labels 0 b.scores b.slots s.heap s.tie_candidates acc
          e in
      publish-Inv _ (record s { heap = acc.0; tie_candidates = acc.1 }) s'
        (absorb-Inv rows _ s acc v eh et real) h₅

  -- The invariant reads neither the completion flags nor the request streams.
  same_fields :
      {rows : List HeapCandidate} {s : Collector} {completed : List Bool} {remaining : ℕ}
      {outbound : List (Option ShardControl)}
      → Inv options k lowest rows s
      → Inv options k lowest rows
          (record s { completed = completed; remaining = remaining; outbound = outbound })
  same_fields v = record {
    heap_front = v.heap_front;
    real = v.real;
    floor_real = v.floor_real;
    rooted = v.rooted;
    ties = v.ties;
  }

  -- Every event that is accepted keeps the invariant, with the rows that it brings.
  pub on_event-Inv :
      (shards : List Probe) (e : StreamEvent) (rows : List HeapCandidate) (s s' : Collector)
      → Inv options k lowest rows s
      → on_event options k shards e s ≡ ok s'
      → Inv options k lowest (rows ++ event_rows options.stable_label_order e) s'
        × NotLower s.published_floor s'.published_floor
  unfolding on_event event_rows on_summary
  on_event-Inv shards (message rank (batch b)) rows s s' v h =
      let (shard, _, h₁) = >>=-eq-ok (expect (get_elem? shards rank)) _ h in
      on_batch-Inv shard.address rank b rows s s' v h₁
  on_event-Inv shards (message rank (summary m)) rows s s' v h =
      let (shard, _, h₁) = >>=-eq-ok (expect (get_elem? shards rank)) _ h in
      let (done, _, h₂) = >>=-eq-ok (expect (get_elem? s.completed rank)) _ h₁ in
      let (_, h₃) = refuse_if-eq-ok done _ _ h₂ in
      let (_, h₄) = refuse_if-eq-ok (not m.completed) _ _ h₃ in
      let (slot, _, h₅) = >>=-eq-ok (expect (get_elem? s.outbound rank)) _ h₄ in
      let (_, _, h₆) = >>=-eq-ok (expect slot) _ h₅ in
      rw append-nil (
        subst (λ z. Inv options k lowest rows z × NotLower s.published_floor z.published_floor)
          (ok-injective h₆) (same_fields v, λ x g. g))
  on_event-Inv shards (message rank absent) rows s s' v h =
      let (_, _, h₁) = >>=-eq-ok (expect (get_elem? shards rank)) _ h in cc
  on_event-Inv shards (error rank e) rows s s' v h =
      let (_, _, h₁) = >>=-eq-ok (expect (get_elem? shards rank)) _ h in cc
  on_event-Inv shards (closed rank) rows s s' v h =
      let (_, _, h₁) = >>=-eq-ok (expect (get_elem? shards rank)) _ h in
      let (done, _, h₂) = >>=-eq-ok (expect (get_elem? s.completed rank)) _ h₁ in
      let (_, h₃) = refuse_if-eq-ok (not done) _ _ h₂ in
      rw append-nil (
        subst (λ z. Inv options k lowest rows z × NotLower s.published_floor z.published_floor)
          (ok-injective h₃) (v, λ x g. g))
