-- ===== src/Coordinator/Collector/Completion.antt =====
-- coordinator/mod.rs: `stream_query` returns only when every shard has reported completion.
use turbovec_grpc.Prelude.{
  ==_iff, Bool, Bool-cases, List, Option, Text, [], ap, arith, false, get_elem?, if◌then◌else◌, inl,
  inr, is_empty, last, length, length-replicate, length-set, none, not, refl, replicate, set, some,
  subst, suc, sym, true, zero, ℕ, ◌&&◌, ◌<◌, ◌==◌, ◌∙◌, ◌∷◌, ◌≡◌, ◌⊎◌,
}
use turbovec_grpc.Float.{F32, float_gt}
use turbovec_grpc.Status.{
  >>=-eq-ok, err-ne-ok, expect, expect-eq-ok, ok, ok-injective, panic-ne-ok, refuse_if-eq-ok,
}
use turbovec_grpc.Wire.{StreamSearchBatch, StreamSearchSummary, absent, batch, summary}
use turbovec_grpc.Coordinator.{Probe}
use turbovec_grpc.Coordinator.Searching.Pools.{get_elem?-set}
use turbovec_grpc.Coordinator.Collector.{
  Collector, HeapCandidate, QueryOptions, ShardControl, StreamEvent, broadcast, closed, drain,
  error, initial_state, message, misaligned, on_batch, on_event, on_summary, publish, publish_root,
  raise_published, scan_rows,
}

-- The summary of a shard that completed its scan.
abbrev pub IsCompletion : ℕ → StreamEvent → Type 0
IsCompletion rank e =
    (m : StreamSearchSummary) × (e ≡ message rank (summary m)) × (m.completed ≡ true)

-- One of the events is the shard's completion.
abbrev pub Completes : ℕ → List StreamEvent → Type 0
Completes rank [] = ⊥
Completes rank (e ∷ es) = IsCompletion rank e ⊎ Completes rank es

abbrev open_count : List Bool → ℕ
open_count [] = 0
open_count (b ∷ bs) = if b then open_count bs else suc (open_count bs)

open_count-replicate : (n : ℕ) → open_count (replicate n false) ≡ n
open_count-replicate zero = refl
open_count-replicate (suc n) = ap suc (open_count-replicate n)

open_count-set :
    (bs : List Bool) (rank : ℕ)
    → get_elem? bs rank ≡ some false
    → open_count bs ≡ suc (open_count (set bs rank true))
open_count-set [] rank h = cc
open_count-set (false ∷ bs) zero h = refl
open_count-set (true ∷ bs) zero h = absurd cc
open_count-set (true ∷ bs) (suc rank) h = open_count-set bs rank h
open_count-set (false ∷ bs) (suc rank) h = ap suc (open_count-set bs rank h)

all_completed :
    (bs : List Bool) (rank : ℕ)
    → open_count bs ≡ 0
    → rank < length bs
    → get_elem? bs rank ≡ some true
all_completed [] rank z h = absurd (omega arith)
all_completed (true ∷ bs) zero z h = refl
all_completed (true ∷ bs) (suc rank) z h = all_completed bs rank z (omega arith)
all_completed (false ∷ bs) rank z h = absurd (omega (arith, z))

-- The flags and the count of a collector for `n` shards, where those in `P` have completed.
record Counts (n : ℕ) (P : ℕ → Type 0) (s : Collector) : Type 0 where
  flag_each : length s.completed ≡ n
  counted : s.remaining ≡ open_count s.completed
  heard : (rank : ℕ) → get_elem? s.completed rank ≡ some true → P rank

initial-Counts :
    (options : QueryOptions) (shards : List Probe) (outbound : List (Option ShardControl))
    → Counts (length shards) (λ rank. ⊥) (initial_state options shards outbound)
unfolding initial_state
initial-Counts options shards outbound = record {
  flag_each = length-replicate (length shards) false;
  counted = sym (open_count-replicate (length shards));
  heard = none_heard (length shards);
}
  where
    none_heard : (n rank : ℕ) → get_elem? (replicate n false) rank ≡ some true → ⊥
    none_heard zero rank h = cc
    none_heard (suc n) zero h = absurd cc
    none_heard (suc n) (suc rank) h = none_heard n rank h

module _ (options : QueryOptions) (k n : ℕ) (P : ℕ → Type 0) where
  raise_published-Counts :
      (floor : F32) (s s' : Collector)
      → Counts n P s
      → raise_published options k floor s ≡ ok s'
      → Counts n P s'
  unfolding raise_published
  raise_published-Counts floor s s' c h =
      let (outbound, _, h₁) = >>=-eq-ok (broadcast floor s.completed s.outbound) _ h in
      subst (Counts n P) (ok-injective h₁)
        (record { flag_each = c.flag_each; counted = c.counted; heard = c.heard })

  publish_root-Counts :
      (root : Option HeapCandidate) (s s' : Collector)
      → Counts n P s
      → publish_root options k root s ≡ ok s'
      → Counts n P s'
  unfolding publish_root
  publish_root-Counts none s s' c h = absurd (panic-ne-ok h)
  publish_root-Counts (some root) s s' c h =
      elim (Bool-cases (float_gt root.score s.published_floor)) [
        | inl b ↦ raise_published-Counts root.score s s' c (rw b at h)
        | inr b ↦ subst (Counts n P) (ok-injective (rw b at h)) c
      ]

  publish-Counts : (s s' : Collector) → Counts n P s → publish options k s ≡ ok s' → Counts n P s'
  unfolding publish
  publish-Counts s s' c h = elim (Bool-cases (length s.heap == k)) [
    | inl b ↦ publish_root-Counts (last s.heap) s s' c (rw b at h)
    | inr b ↦ subst (Counts n P) (ok-injective (rw b at h)) c
  ]

  on_batch-Counts :
      (address : Text) (rank : ℕ) (b : StreamSearchBatch) (s s' : Collector)
      → Counts n P s
      → on_batch options k address rank b s ≡ ok s'
      → Counts n P s'
  unfolding on_batch
  on_batch-Counts address rank b s s' c h =
      let (done, _, h₁) = >>=-eq-ok (expect (get_elem? s.completed rank)) _ h in
      let (_, h₂) = refuse_if-eq-ok done _ _ h₁ in
      let (_, h₃) = refuse_if-eq-ok (misaligned options k b) _ _ h₂ in
      let (_, h₄) =
        refuse_if-eq-ok
          (options.stable_label_order && (is_empty b.labels && not (is_empty b.scores))) _ _ h₃ in
      let (acc, _, h₅) =
        >>=-eq-ok
          (scan_rows options k address rank b.labels 0 b.scores b.slots (s.heap, s.tie_candidates))
          _ h₄ in
      publish-Counts (record s { heap = acc.0; tie_candidates = acc.1 }) s'
        (record { flag_each = c.flag_each; counted = c.counted; heard = c.heard }) h₅

  Counts-weaken :
      (e : StreamEvent) (s : Collector)
      → Counts n P s
      → Counts n (λ rank. P rank ⊎ IsCompletion rank e) s
  Counts-weaken e s c = record {
    flag_each = c.flag_each;
    counted = c.counted;
    heard = λ rank h. inl (c.heard rank h);
  }

  on_summary-Counts :
      (address : Text) (rank : ℕ) (m : StreamSearchSummary) (s s' : Collector)
      → Counts n P s
      → on_summary options k address rank m s ≡ ok s'
      → Counts n (λ r. P r ⊎ IsCompletion r (message rank (summary m))) s'
  unfolding on_summary
  on_summary-Counts address rank m s s' c h =
      let (done, e, h₁) = >>=-eq-ok (expect (get_elem? s.completed rank)) _ h in
      let (new, h₂) = refuse_if-eq-ok done _ _ h₁ in
      let (full, h₃) = refuse_if-eq-ok (not m.completed) _ _ h₂ in
      let (slot, _, h₄) = >>=-eq-ok (expect (get_elem? s.outbound rank)) _ h₃ in
      let (_, _, h₅) = >>=-eq-ok (expect slot) _ h₄ in
      let unheard : get_elem? s.completed rank ≡ some false =
        expect-eq-ok (get_elem? s.completed rank) e ∙ ap some new in
      subst (Counts n (λ r. P r ⊎ IsCompletion r (message rank (summary m)))) (ok-injective h₅)
        (record {
          flag_each = length-set s.completed rank true ∙ c.flag_each;
          counted = omega (arith, c.counted, open_count-set s.completed rank unheard);
          heard = λ r at. elim (get_elem?-set s.completed rank r true true at) [
            | inl (same, _) ↦ inr (m, ap (λ q. message q (summary m)) same, ground (arith, full))
            | inr before ↦ inl (c.heard r before)
          ];
        })

  on_event-Counts :
      (shards : List Probe) (e : StreamEvent) (s s' : Collector)
      → Counts n P s
      → on_event options k shards e s ≡ ok s'
      → Counts n (λ rank. P rank ⊎ IsCompletion rank e) s'
  unfolding on_event
  on_event-Counts shards (message rank (batch b)) s s' c h =
      let (shard, _, h₁) = >>=-eq-ok (expect (get_elem? shards rank)) _ h in
      Counts-weaken _ s' (on_batch-Counts shard.address rank b s s' c h₁)
  on_event-Counts shards (message rank (summary m)) s s' c h =
      let (shard, _, h₁) = >>=-eq-ok (expect (get_elem? shards rank)) _ h in
      on_summary-Counts shard.address rank m s s' c h₁
  on_event-Counts shards (message rank absent) s s' c h =
      let (_, _, h₁) = >>=-eq-ok (expect (get_elem? shards rank)) _ h in absurd (err-ne-ok h₁)
  on_event-Counts shards (error rank e) s s' c h =
      let (_, _, h₁) = >>=-eq-ok (expect (get_elem? shards rank)) _ h in absurd (err-ne-ok h₁)
  on_event-Counts shards (closed rank) s s' c h =
      let (_, _, h₁) = >>=-eq-ok (expect (get_elem? shards rank)) _ h in
      let (done, _, h₂) = >>=-eq-ok (expect (get_elem? s.completed rank)) _ h₁ in
      let (_, h₃) = refuse_if-eq-ok (not done) _ _ h₂ in
      Counts-weaken _ s' (subst (Counts n P) (ok-injective h₃) c)

none_remaining :
    (n : ℕ) (P : ℕ → Type 0) (s : Collector)
    → Counts n P s
    → (s.remaining == 0) ≡ true
    → (rank : ℕ) → rank < n
    → P rank
none_remaining n P s c z rank h = c.heard rank (
    all_completed s.completed rank (sym c.counted ∙ (==_iff s.remaining 0).0 z)
      (omega (arith, c.flag_each)))

drain-Counts :
    (options : QueryOptions) (k n : ℕ) (P : ℕ → Type 0) (shards : List Probe)
    (events : List StreamEvent) (s s' : Collector)
    → Counts n P s
    → drain options k shards events s ≡ ok s'
    → (rank : ℕ) → rank < n
    → P rank ⊎ Completes rank events
unfolding drain
drain-Counts options k n P shards [] s s' c h rank below = elim (Bool-cases (s.remaining == 0)) [
  | inl z ↦ inl (none_remaining n P s c z rank below)
  | inr z ↦ absurd (err-ne-ok (rw z at h))
]
drain-Counts options k n P shards (e ∷ es) s s' c h rank below =
    elim (Bool-cases (s.remaining == 0)) [
      | inl z ↦ inl (none_remaining n P s c z rank below)
      | inr z ↦
          let (t, step, later) = >>=-eq-ok (on_event options k shards e s) _ (rw z at h) in
          elim (drain-Counts options k n (λ r. P r ⊎ IsCompletion r e) shards es t s'
            (on_event-Counts options k n P shards e s t c step) later rank below) [
              | inl (inl before) ↦ inl before
              | inl (inr now) ↦ inr (inl now)
              | inr after ↦ inr (inr after)
            ]
    ]

-- A loop that returns has heard the completion of every shard among its events.
pub drain-Completes :
    (options : QueryOptions) (k : ℕ) (shards : List Probe) (outbound : List (Option ShardControl))
    (events : List StreamEvent) (s' : Collector)
    → drain options k shards events (initial_state options shards outbound) ≡ ok s'
    → (rank : ℕ) → rank < length shards
    → Completes rank events
drain-Completes options k shards outbound events s' h rank below =
    elim (drain-Counts options k (length shards) (λ r. ⊥) shards events _ s'
      (initial-Counts options shards outbound) h rank below) [
        | inl never ↦ absurd never
        | inr heard ↦ heard
      ]
