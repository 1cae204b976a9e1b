-- ===== src/Coordinator/Candidates/Turns.antt =====
-- coordinator/mod.rs: each event of the loop of `run_candidate_stream`.
use turbovec_grpc.Prelude.{
  Bool, List, Option, Text, [], ap, append_assoc, arith, false, get_elem?, if◌then◌else◌, inl, none,
  refl, set, some, subst, sym, text, true, ℕ, ◌++◌, ◌∙◌, ◌≡◌,
}
use turbovec_grpc.Float.{F32, float_gt, is_nan}
use turbovec_grpc.Status.{>>=-eq-ok, expect, ok, ok-injective, refuse_if-eq-ok, ◌>>=◌}
use turbovec_grpc.Wire.{StreamSearchBatch, StreamSearchSummary, absent, batch, summary}
use turbovec_grpc.Coordinator.{Probe}
use turbovec_grpc.Coordinator.Collector.{
  StreamEvent, broadcast, closed, error, message, shard_message,
}
use turbovec_grpc.Coordinator.Candidates.{
  CandidateRequest, LoopEvent, Stream, batch_taken, caller_gone, candidate_absent, candidate_floor,
  candidate_start, candidate_stop, count_summary, crashes, deadline, extend_pending, flush_if_full,
  flush_pending, flush_tick, give_up, inbound, inbound_closed, inbound_failed, on_closed,
  on_completion, on_floor, on_inbound, on_shard, or_give_up, rank_of, retire, shard_event,
  shard_turn, shards_gone, stop_all, turn, unlabelled,
}
use turbovec_grpc.Coordinator.Candidates.Bytes.{wire_bytes, wire_bytes-append}
use turbovec_grpc.Coordinator.Candidates.Received.{Delivers, TurnDelivers, bytes_of, paired}
use turbovec_grpc.Coordinator.Candidates.Delivery.{
  IsSameDelivery, extend_pending-wire_bytes, flush_pending-Delivers, give_up-TurnDelivers,
  if-either, itself, missing-set, no_more_bytes, or_give_up-TurnDelivers, same-Delivers,
}

module _ (cs : List (ℕ × F32)) (marks : List Bool) where
  batch_taken-Delivers :
      (address : Text) (rank : ℕ) (b : StreamSearchBatch) (s s' : Stream)
      → Delivers cs marks s
      → batch_taken address rank b s ≡ ok s'
      → Delivers (cs ++ paired b.labels b.scores) marks s'
  unfolding batch_taken flush_if_full
  batch_taken-Delivers address rank b s s' d h =
      let (done, _, h₁) = >>=-eq-ok (expect (get_elem? s.completed rank)) _ h in
      let (_, h₂) = refuse_if-eq-ok done _ _ h₁ in
      let (_, h₃) = refuse_if-eq-ok (unlabelled b) _ _ h₂ in
      let (longer, extended, h₄) =
        >>=-eq-ok (extend_pending address b.labels b.scores s.pending) _ h₃ in
      let bytes = extend_pending-wire_bytes address b.labels b.scores s.pending longer extended in
      let s₁ : Stream = record s { pending = longer } in
      let more : Delivers (cs ++ paired b.labels b.scores) marks s₁ = record {
        only_batches = d.only_batches;
        in_order =
            ap (◌++◌ (bytes_of s.sent)) bytes
            ∙ sym (append_assoc (bytes_of s.sent) s.pending (wire_bytes (paired b.labels b.scores)))
            ∙ ap (λ front. front ++ wire_bytes (paired b.labels b.scores)) d.in_order
            ∙ sym (wire_bytes-append cs (paired b.labels b.scores));
        whole_sent = d.whole_sent;
        counted = d.counted;
        marked = d.marked;
        left = d.left;
        unfinished = d.unfinished;
      } in
      subst (Delivers (cs ++ paired b.labels b.scores) marks) (ok-injective h₄) (
        if-either (Delivers (cs ++ paired b.labels b.scores) marks) _ (flush_pending s₁) s₁
          (flush_pending-Delivers (cs ++ paired b.labels b.scores) marks s₁ more) more)

  counted-same :
      (m : StreamSearchSummary) (s : Stream) → IsSameDelivery cs marks s (count_summary m s)
  unfolding count_summary
  counted-same m s = record {
    same_sent = refl;
    same_pending = refl;
    same_emitted = refl;
    same_outcome = refl;
  }

  retire-Delivers :
      (rank : ℕ) (m : StreamSearchSummary) (s s' : Stream)
      → Delivers cs marks s
      → get_elem? s.completed rank ≡ some false
      → retire rank (count_summary m s) ≡ ok s'
      → Delivers (cs ++ []) (set marks rank true) s'
  unfolding retire count_summary
  retire-Delivers rank m s s' d at h =
      let (slot, _, h₁) = >>=-eq-ok (expect (get_elem? s.outbound rank)) _ h in
      let (control, _, h₂) = >>=-eq-ok (expect slot) _ h₁ in
      subst (Delivers (cs ++ []) (set marks rank true)) (ok-injective h₂) (
        no_more_bytes cs marks (set marks rank true) s _
          (record {
            same_sent = refl;
            same_pending = refl;
            same_emitted = refl;
            same_outcome = refl;
          })
          (ap (λ c. set c rank true) d.marked)
          (omega (
            arith,
            d.left,
            missing-set marks rank (subst (λ c. get_elem? c rank ≡ some false) d.marked at),
          ))
          d)

  on_completion-TurnDelivers :
      (address : Text) (rank : ℕ) (m : StreamSearchSummary) (o : Option Bool) (s : Stream)
      → get_elem? s.completed rank ≡ o
      → Delivers cs marks s
      → TurnDelivers
          (shard_event (message rank (summary m)))
          cs
          marks
          s
          (on_completion address rank m o s)
  unfolding on_completion
  on_completion-TurnDelivers address rank m none s at d = tt
  on_completion-TurnDelivers address rank m (some true) s at d =
      give_up-TurnDelivers cs marks (shard_event (message rank (summary m))) _ s s
        (itself cs marks s)
  on_completion-TurnDelivers address rank m (some false) s at d = finished m.completed refl
    where
      finished :
          (done : Bool)
          → m.completed ≡ done
          → TurnDelivers (shard_event (message rank (summary m))) cs marks s (
              if done
              then or_give_up (count_summary m s) (retire rank (count_summary m s))
              else give_up
                  (shard_message address (text " did not complete its candidate scan"))
                  (count_summary m s))
      finished false e =
          give_up-TurnDelivers cs marks (shard_event (message rank (summary m))) _ s
            (count_summary m s) (counted-same m s)
      finished true e =
          or_give_up-TurnDelivers cs marks (shard_event (message rank (summary m))) s
            (count_summary m s) (retire rank (count_summary m s)) (counted-same m s)
            (λ s' h. rw (e) (retire-Delivers rank m s s' d at h))

  shard_turn-TurnDelivers :
      (address : Text) (e : StreamEvent) (s : Stream)
      → Delivers cs marks s
      → TurnDelivers (shard_event e) cs marks s (shard_turn address e s)
  unfolding shard_turn on_closed
  shard_turn-TurnDelivers address (message rank (batch b)) s d =
      or_give_up-TurnDelivers cs marks (shard_event (message rank (batch b))) s s
        (batch_taken address rank b s) (itself cs marks s)
        (λ s' h. batch_taken-Delivers address rank b s s' d h)
  shard_turn-TurnDelivers address (message rank (summary m)) s d =
      on_completion-TurnDelivers address rank m (get_elem? s.completed rank) s refl d
  shard_turn-TurnDelivers address (message rank absent) s d =
      give_up-TurnDelivers cs marks (shard_event (message rank absent)) _ s s (itself cs marks s)
  shard_turn-TurnDelivers address (error rank e) s d =
      give_up-TurnDelivers cs marks (shard_event (error rank e)) _ s s (itself cs marks s)
  shard_turn-TurnDelivers address (closed rank) s d = closing (get_elem? s.completed rank)
    where
      closing :
          (o : Option Bool)
          → TurnDelivers (shard_event (closed rank)) cs marks s (on_closed address o s)
      closing none = tt
      closing (some true) = same-Delivers cs marks s d
      closing (some false) =
          give_up-TurnDelivers cs marks (shard_event (closed rank)) _ s s (itself cs marks s)

  on_floor-TurnDelivers :
      (request : CandidateRequest) (floor : F32) (s : Stream)
      → Delivers cs marks s
      → TurnDelivers (inbound request) cs marks s (on_floor floor s)
  unfolding on_floor
  on_floor-TurnDelivers request floor s d =
      if-either (TurnDelivers (inbound request) cs marks s) (is_nan floor) _ _
        (give_up-TurnDelivers cs marks (inbound request) _ s s (itself cs marks s))
        (if-either (TurnDelivers (inbound request) cs marks s) (float_gt floor s.last_floor) _ _
          (or_give_up-TurnDelivers cs marks (inbound request) s s _ (itself cs marks s) raised)
          (same-Delivers cs marks s d))
    where
      raised :
          (s' : Stream)
          → (do
            outbound ← broadcast floor s.completed s.outbound
            ok (record s { last_floor = floor; outbound = outbound }))
            ≡ ok s'
          → Delivers (cs ++ []) marks s'
      raised s' h =
          let (outbound, _, h₁) = >>=-eq-ok (broadcast floor s.completed s.outbound) _ h in
          subst (Delivers (cs ++ []) marks) (ok-injective h₁) (
            no_more_bytes cs marks marks s _
              (record {
                same_sent = refl;
                same_pending = refl;
                same_emitted = refl;
                same_outcome = refl;
              })
              d.marked d.left d)

  on_inbound-TurnDelivers :
      (request : CandidateRequest) (s : Stream)
      → Delivers cs marks s
      → TurnDelivers (inbound request) cs marks s (on_inbound request s)
  unfolding on_inbound stop_all
  on_inbound-TurnDelivers (candidate_floor floor) s d =
      on_floor-TurnDelivers (candidate_floor floor) floor s d
  on_inbound-TurnDelivers candidate_stop s d =
      give_up-TurnDelivers cs marks (inbound candidate_stop) _ s (stop_all s)
        (record { same_sent = refl; same_pending = refl; same_emitted = refl; same_outcome = refl })
  on_inbound-TurnDelivers (candidate_start again) s d =
      give_up-TurnDelivers cs marks (inbound (candidate_start again)) _ s s (itself cs marks s)
  on_inbound-TurnDelivers candidate_absent s d =
      give_up-TurnDelivers cs marks (inbound candidate_absent) _ s s (itself cs marks s)

  -- Every turn keeps the delivery, or ends with the completion of what was delivered.
  pub turn-TurnDelivers :
      (shards : List Probe) (e : LoopEvent) (s : Stream)
      → Delivers cs marks s
      → TurnDelivers e cs marks s (turn shards e s)
  unfolding turn on_shard stop_all
  turn-TurnDelivers shards caller_gone s d = record { ending = inl refl }
  turn-TurnDelivers shards deadline s d =
      give_up-TurnDelivers cs marks deadline _ s (stop_all s)
        (record { same_sent = refl; same_pending = refl; same_emitted = refl; same_outcome = refl })
  turn-TurnDelivers shards flush_tick s d =
      same-Delivers cs marks (flush_pending s) (flush_pending-Delivers cs marks s d)
  turn-TurnDelivers shards (inbound request) s d =
      if-either (TurnDelivers (inbound request) cs marks s) s.inbound_open _ _
        (on_inbound-TurnDelivers request s d) (same-Delivers cs marks s d)
  turn-TurnDelivers shards (inbound_failed e) s d =
      if-either (TurnDelivers (inbound_failed e) cs marks s) s.inbound_open _ _
        (give_up-TurnDelivers cs marks (inbound_failed e) _ s s (itself cs marks s))
        (same-Delivers cs marks s d)
  turn-TurnDelivers shards inbound_closed s d =
      no_more_bytes cs marks marks s _
        (record { same_sent = refl; same_pending = refl; same_emitted = refl; same_outcome = refl })
        d.marked d.left d
  turn-TurnDelivers shards (shard_event e) s d = found (get_elem? shards (rank_of e))
    where
      found :
          (o : Option Probe)
          → TurnDelivers
              (shard_event e)
              cs
              marks
              s
              (elim o [ none ↦ crashes | some shard ↦ shard_turn shard.address e s ])
      found none = tt
      found (some shard) = shard_turn-TurnDelivers shard.address e s d
  turn-TurnDelivers shards shards_gone s d =
      give_up-TurnDelivers cs marks shards_gone _ s s (itself cs marks s)
