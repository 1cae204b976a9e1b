-- ===== src/Coordinator/Candidates/Delivery.antt =====
-- coordinator/mod.rs: every turn of `run_candidate_stream` delivers what the shards sent, in order.
use turbovec_grpc.Prelude.{
  All, Bool, List, Text, [], all, ap, append-nil, append_assoc, arith, false, get_elem?,
  if◌then◌else◌, inr, is_empty, length, length-append, min, refl, set, some, subst, suc, sym, true,
  u64_mod, zero, ℕ, ◌*◌, ◌++◌, ◌+◌, ◌-◌, ◌/◌, ◌<◌, ◌∙◌, ◌∷◌, ◌≡◌,
}
use turbovec_grpc.Float.{F32, is_nan}
use turbovec_grpc.Status.{Result, err, ok, ok-injective, panic, refuse_if-eq-ok}
use turbovec_grpc.Coordinator.Candidates.{
  CandidateResponse, LoopEvent, Stream, candidate_batch, candidate_bytes, candidate_completion,
  candidate_status, extend_pending, flush_pending, give_up, or_give_up, saturating_add,
  send_completion,
}
use turbovec_grpc.Coordinator.Candidates.Bytes.{length-wire_bytes, wire_bytes}
use turbovec_grpc.Coordinator.Candidates.Received.{
  Delivers, IsBatch, TurnDelivers, bytes_of, candidates_of, mark, missing, paired,
}

batches-append :
    (sent : List CandidateResponse) (bytes : List ℕ)
    → All IsBatch sent
    → All IsBatch (sent ++ candidate_batch bytes ∷ [])
      × (bytes_of (sent ++ candidate_batch bytes ∷ []) ≡ bytes_of sent ++ bytes)
batches-append [] bytes h = ((tt, tt), append-nil bytes)
batches-append (candidate_batch b ∷ sent) bytes (h, hs) =
    let (all, joined) = batches-append sent bytes hs in
    ((h, all), ap (◌++◌ b) joined ∙ sym (append_assoc b (bytes_of sent) bytes))
batches-append (candidate_completion c ∷ sent) bytes (h, hs) = absurd h
batches-append (candidate_status e ∷ sent) bytes (h, hs) = absurd h

pub if-either {ℓ κ} :
    {A : Type ℓ} (P : A → Type κ) (test : Bool) (a b : A) → P a → P b → P (if test then a else b)
if-either P true a b x y = x
if-either P false a b x y = y

emitted_sum :
    (l p emitted n m : ℕ)
    → l ≡ 12 * n
    → l + p ≡ 12 * m
    → emitted ≡ min (l / 12) (u64_mod - 1)
    → min (emitted + p / 12) (u64_mod - 1) ≡ min ((l + p) / 12) (u64_mod - 1)
emitted_sum l p emitted n m a b c = omega arith

module _ (cs : List (ℕ × F32)) (marks : List Bool) where
  all_lengths :
      (s : Stream)
      → Delivers cs marks s
      → length (bytes_of s.sent) + length s.pending ≡ 12 * length cs
  all_lengths s d =
      sym (length-append (bytes_of s.sent) s.pending) ∙ ap length d.in_order ∙ length-wire_bytes cs

  pub flush_pending-Delivers :
      (s : Stream) → Delivers cs marks s → Delivers cs marks (flush_pending s)
  unfolding flush_pending saturating_add
  flush_pending-Delivers s d =
      let (all, joined) = batches-append s.sent s.pending d.only_batches in
      let lengths = all_lengths s d in
      let longer = ap length joined ∙ length-append (bytes_of s.sent) s.pending in
      if-either (Delivers cs marks) (is_empty s.pending) s _ d (record {
        only_batches = all;
        in_order = append-nil _ ∙ joined ∙ d.in_order;
        whole_sent = (length cs, longer ∙ lengths);
        counted =
            emitted_sum (length (bytes_of s.sent)) (length s.pending) s.completion.emitted
              d.whole_sent.0 (length cs) d.whole_sent.1 lengths d.counted
            ∙ ap (λ n. min (n / 12) (u64_mod - 1)) (sym longer);
        marked = d.marked;
        left = d.left;
        unfinished = d.unfinished;
      })

  pub flush_pending-empty : (s : Stream) → (flush_pending s).pending ≡ []
  unfolding flush_pending
  flush_pending-empty s =
      elim (s.pending) as (λ p. s.pending ≡ p → (flush_pending s).pending ≡ []) [
        | [] ↦ λ e. ground (arith, e)
        | ◌∷◌ x xs ↦ λ e. ground (arith, e)
      ]
        refl

  -- Nothing more was received.
  pub same-Delivers : (s : Stream) → Delivers cs marks s → Delivers (cs ++ []) marks s
  same-Delivers s d = subst (λ ds. Delivers ds marks s) (sym (append-nil cs)) d

  -- Only the controls, the floor and what the shards report of their scans differ.
  pub record IsSameDelivery (s s' : Stream) : Type 0 where
    pub same_sent : s'.sent ≡ s.sent
    pub same_pending : s'.pending ≡ s.pending
    pub same_emitted : s'.completion.emitted ≡ s.completion.emitted
    pub same_outcome : s'.completion.completed ≡ s.completion.completed

  pub no_more_bytes :
      (marks' : List Bool) (s s' : Stream)
      → IsSameDelivery s s'
      → s'.completed ≡ marks'
      → s'.remaining ≡ missing marks'
      → Delivers cs marks s
      → Delivers (cs ++ []) marks' s'
  no_more_bytes marks' s s' same marked left d = record {
    only_batches = subst (All IsBatch) (sym same.same_sent) d.only_batches;
    in_order =
        rw (same.same_sent, same.same_pending, d.in_order) (ap wire_bytes (sym (append-nil cs)));
    whole_sent = rw (same.same_sent) d.whole_sent;
    counted = rw (same.same_emitted, same.same_sent) d.counted;
    marked = marked;
    left = left;
    unfinished = same.same_outcome ∙ d.unfinished;
  }

  pub itself : (s : Stream) → IsSameDelivery s s
  itself s = record {
    same_sent = refl;
    same_pending = refl;
    same_emitted = refl;
    same_outcome = refl;
  }

  module _ (e : LoopEvent) where
    pub give_up-TurnDelivers :
        (why : Text) (s s' : Stream)
        → IsSameDelivery s s'
        → TurnDelivers e cs marks s (give_up why s')
    unfolding give_up send_completion
    give_up-TurnDelivers why s s' same = record {
      ending = inr (
        record s'.completion { error_text = why },
        ap (λ sent. sent ++ candidate_completion (record s'.completion { error_text = why }) ∷ [])
            same.same_sent,
        same.same_emitted,
        same.same_outcome,
      );
    }

    pub or_give_up-TurnDelivers :
        (s s₀ : Stream) (r : Result Stream)
        → IsSameDelivery s s₀
        → ((s' : Stream) → r ≡ ok s' → Delivers (cs ++ candidates_of e) (mark e marks) s')
        → TurnDelivers e cs marks s (or_give_up s₀ r)
    unfolding or_give_up
    or_give_up-TurnDelivers s s₀ (ok s') same h = h s' refl
    or_give_up-TurnDelivers s s₀ (err x) same h = give_up-TurnDelivers x.message s s₀ same
    or_give_up-TurnDelivers s s₀ panic same h = tt

pub extend_pending-wire_bytes :
    (address : Text) (labels : List ℕ) (scores : List F32) (pending longer : List ℕ)
    → extend_pending address labels scores pending ≡ ok longer
    → longer ≡ pending ++ wire_bytes (paired labels scores)
unfolding extend_pending
extend_pending-wire_bytes address [] scores pending longer h =
    sym (ok-injective h) ∙ sym (append-nil pending)
extend_pending-wire_bytes address (label ∷ labels) [] pending longer h =
    sym (ok-injective h) ∙ sym (append-nil pending)
extend_pending-wire_bytes address (label ∷ labels) (score ∷ scores) pending longer h =
    let (_, h₁) = refuse_if-eq-ok (is_nan score) _ _ h in
    extend_pending-wire_bytes address labels scores (pending ++ candidate_bytes (label, score))
      longer h₁
    ∙ append_assoc pending (candidate_bytes (label, score)) (wire_bytes (paired labels scores))

pub missing-set :
    (marks : List Bool) (rank : ℕ)
    → get_elem? marks rank ≡ some false
    → missing (set marks rank true) ≡ missing marks - 1
missing-set [] rank h = cc
missing-set (false ∷ marks) zero h = omega arith
missing-set (true ∷ marks) zero h = cc
missing-set (true ∷ marks) (suc rank) h = missing-set marks rank h
missing-set (false ∷ marks) (suc rank) h =
    omega (arith, missing-set marks rank h, missing-pos marks rank h)
  where
    missing-pos :
        (marks : List Bool) (rank : ℕ) → get_elem? marks rank ≡ some false → 0 < missing marks
    missing-pos [] rank h = cc
    missing-pos (false ∷ marks) zero h = omega arith
    missing-pos (true ∷ marks) zero h = cc
    missing-pos (true ∷ marks) (suc rank) h = missing-pos marks rank h
    missing-pos (false ∷ marks) (suc rank) h = omega arith
