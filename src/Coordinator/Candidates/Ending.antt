-- ===== src/Coordinator/Candidates/Ending.antt =====
-- coordinator/mod.rs: what the caller of `run_candidate_stream` has received when it ends.
use turbovec_grpc.Prelude.{
  All, Bool, List, [], ap, append-nil, append_assoc, arith, false, if◌then◌else◌, inl, inr, length,
  min, refl, subst, sym, true, u64_mod, ℕ, ◌++◌, ◌-◌, ◌/◌, ◌==◌, ◌∙◌, ◌∷◌, ◌≡◌, ◌⊎◌,
}
use turbovec_grpc.Float.{F32}
use turbovec_grpc.Coordinator.{Probe}
use turbovec_grpc.Coordinator.Candidates.{
  CandidateResponse, Completion, LoopEvent, Stream, Turn, and_then, candidate_completion, conclude,
  crashes, flush_pending, forward_candidates, goes_on, returns, send_completion, turn,
}
use turbovec_grpc.Coordinator.Candidates.Bytes.{wire_bytes}
use turbovec_grpc.Coordinator.Candidates.Received.{
  Delivers, GivesUp, IsBatch, TurnDelivers, all_candidates, all_marks, bytes_of, candidates_of,
  mark, missing,
}
use turbovec_grpc.Coordinator.Candidates.Delivery.{flush_pending-Delivers, flush_pending-empty}
use turbovec_grpc.Coordinator.Candidates.Turns.{turn-TurnDelivers}

-- The last message, behind the batches: none, where the caller has gone, or one completion that
-- counts the candidates of the batches, and claims to be complete only if they are all that came
-- and every shard has told of a completed scan.
abbrev pub Closes : List CandidateResponse → List CandidateResponse → List ℕ → List Bool → Type 0
Closes sent batches unsent marks =
    (sent ≡ batches)
    ⊎ ((c : Completion) × (sent ≡ batches ++ candidate_completion c ∷ [])
        × (c.emitted ≡ min (length (bytes_of batches) / 12) (u64_mod - 1))
        × (c.completed ≡ true → (unsent ≡ []) × (missing marks ≡ 0)))

-- The messages sent, of the events taken: batches that carry the candidates in the order in which
-- they came, up to those still unsent, and the last message.
pub record Delivered (cs : List (ℕ × F32)) (marks : List Bool) (events : List LoopEvent)
    (sent : List CandidateResponse) : Type 0 where
  pub before : List LoopEvent
  pub after : List LoopEvent
  pub batches : List CandidateResponse
  pub unsent : List ℕ
  pub taken_first : events ≡ before ++ after
  pub only_batches : All IsBatch batches
  pub in_order : bytes_of batches ++ unsent ≡ wire_bytes (cs ++ all_candidates before)
  pub closing : Closes sent batches unsent (all_marks before marks)

true-ne-false : true ≡ false → ⊥
true-ne-false h = cc

conclude-Delivered :
    (cs : List (ℕ × F32)) (marks : List Bool) (events : List LoopEvent) (s : Stream)
    → (s.remaining == 0) ≡ true
    → Delivers cs marks s
    → Delivered cs marks events (conclude s).sent
unfolding conclude send_completion
conclude-Delivered cs marks events s z d =
    let flushed = flush_pending s in
    let f = flush_pending-Delivers cs marks s d in
    record {
      before = [];
      after = events;
      batches = flushed.sent;
      unsent = flushed.pending;
      taken_first = refl;
      only_batches = f.only_batches;
      in_order = f.in_order ∙ ap wire_bytes (sym (append-nil cs));
      closing = inr (
        record flushed.completion { completed = true },
        refl,
        f.counted,
        λ _. (flush_pending-empty cs marks s, sym d.left ∙ ground arith),
      );
    }

gave_up-Delivered :
    (cs : List (ℕ × F32)) (marks : List Bool) (events : List LoopEvent) (s s' : Stream)
    → Delivers cs marks s
    → GivesUp s s'
    → Delivered cs marks events s'.sent
gave_up-Delivered cs marks events s s' d g = record {
  before = [];
  after = events;
  batches = s.sent;
  unsent = s.pending;
  taken_first = refl;
  only_batches = d.only_batches;
  in_order = d.in_order ∙ ap wire_bytes (sym (append-nil cs));
  closing = elim (g.ending) [
    | inl e ↦ inl e
    | inr (c, e, counted, outcome) ↦ inr (
      c,
      e,
      counted ∙ d.counted,
      λ done. absurd (true-ne-false (sym done ∙ outcome ∙ d.unfinished)),
    )
  ];
}

later-Delivered :
    (cs : List (ℕ × F32)) (marks : List Bool) (e : LoopEvent) (events : List LoopEvent)
    (sent : List CandidateResponse)
    → Delivered (cs ++ candidates_of e) (mark e marks) events sent
    → Delivered cs marks (e ∷ events) sent
later-Delivered cs marks e events sent r = record {
  before = e ∷ r.before;
  after = r.after;
  batches = r.batches;
  unsent = r.unsent;
  taken_first = ap (◌∷◌ e) r.taken_first;
  only_batches = r.only_batches;
  in_order =
      r.in_order ∙ ap wire_bytes (append_assoc cs (candidates_of e) (all_candidates r.before));
  closing = r.closing;
}

returns-injective : {s s' : Stream} → returns s ≡ returns s' → s ≡ s'
returns-injective h = cc

waits-ne-returns : {s s' : Stream} → goes_on s ≡ returns s' → ⊥
waits-ne-returns h = cc

crashes-ne-returns : {s : Stream} → crashes ≡ returns s → ⊥
crashes-ne-returns h = cc

-- Whatever the loop takes, and however it ends, the caller has received the candidates of the
-- events before the last one as they came, none twice and none out of order, in batches, then at
-- most one completion, which is the last message and counts what was sent; a completion that
-- claims to be complete has left nothing unsent and every shard reported a completed scan.
pub forward_candidates-Delivered :
    (shards : List Probe) (events : List LoopEvent) (cs : List (ℕ × F32)) (marks : List Bool)
    (s s' : Stream)
    → Delivers cs marks s
    → forward_candidates shards events s ≡ returns s'
    → Delivered cs marks events s'.sent
unfolding forward_candidates and_then
forward_candidates-Delivered shards [] cs marks s s' d h = ending (s.remaining == 0) refl h
  where
    ending :
        (z : Bool)
        → (s.remaining == 0) ≡ z
        → (if z then returns (conclude s) else goes_on s) ≡ returns s'
        → Delivered cs marks [] s'.sent
    ending false e h = absurd (waits-ne-returns h)
    ending true e h =
        subst (λ t. Delivered cs marks [] t.sent) (returns-injective h)
          (conclude-Delivered cs marks [] s e d)
forward_candidates-Delivered shards (event ∷ events) cs marks s s' d h =
    ending
      (λ s₁ d₁ g.
        forward_candidates-Delivered shards events (cs ++ candidates_of event) (mark event marks) s₁
          s' d₁ g)
      (s.remaining == 0) refl h
  where
    Rest : Type 0
    Rest =
        (s₁ : Stream)
        → Delivers (cs ++ candidates_of event) (mark event marks) s₁
        → forward_candidates shards events s₁ ≡ returns s'
        → Delivered (cs ++ candidates_of event) (mark event marks) events s'.sent

    next :
        Rest
        → (t : Turn) → TurnDelivers event cs marks s t
        → and_then t (forward_candidates shards events) ≡ returns s'
        → Delivered cs marks (event ∷ events) s'.sent
    next rest (goes_on s₁) d₁ h = later-Delivered cs marks event events s'.sent (rest s₁ d₁ h)
    next rest (returns s₁) g h =
        subst (λ t. Delivered cs marks (event ∷ events) t.sent) (returns-injective h)
          (gave_up-Delivered cs marks (event ∷ events) s s₁ d g)
    next rest crashes u h = absurd (crashes-ne-returns h)

    ending :
        Rest
        → (z : Bool) → (s.remaining == 0) ≡ z
        → (if z
            then returns (conclude s)
            else and_then (turn shards event s) (forward_candidates shards events))
          ≡ returns s'
        → Delivered cs marks (event ∷ events) s'.sent
    ending rest true e h =
        subst (λ t. Delivered cs marks (event ∷ events) t.sent) (returns-injective h)
          (conclude-Delivered cs marks (event ∷ events) s e d)
    ending rest false e h =
        next rest (turn shards event s) (turn-TurnDelivers cs marks shards event s d) h
