-- ===== src/Coordinator/Collector.antt =====
-- coordinator/mod.rs: `HeapCandidate`, the shard streams' events, and `stream_query`, which
-- collects one query's best `k` from shards that stream candidates above the published floor.
pub mod Ranking
pub mod Rows
pub mod Invariant
pub mod Completion
pub mod Exact
use turbovec_grpc.Prelude.{
  Bool, List, Option, Text, [], false, get_elem?, if◌then◌else◌, is_empty, last, length, none, not,
  replicate, retain, set, some, suc, text, true, ℕ, ◌&&◌, ◌++◌, ◌-◌, ◌==◌, ◌||◌, ◌∷◌,
}
use turbovec_grpc.Order.{Ordering, compare, then_with}
use turbovec_grpc.TopK.{offer, sort}
use turbovec_grpc.Float.{F32, float_ge, float_gt, is_nan, neg_infinity, total_rank}
use turbovec_grpc.Status.{
  Result, Status, aborted, err, expect, failed_precondition, internal, map_err, node_unreachable,
  ok, panic, refuse_if, status, unavailable_status, ◌>>=◌, ◌>>◌,
}
use turbovec_grpc.Wire.{
  LabelBitmap, Neighbour, StreamSearchBatch, StreamSearchRequest, StreamSearchResponse,
  StreamSearchSummary, absent, batch, floor_update, start, stop, summary,
}
use turbovec_grpc.Coordinator.{Pinned, Probe, node_error}

pub record HeapCandidate : Type 0 where
  pub score : F32
  pub shard_rank : ℕ
  pub slot : ℕ
  pub label : Option ℕ
  pub label_order_key : Option ℕ

-- `Option<u64>` orders `None` first.
abbrev pub option_rank : Option ℕ → ℕ
option_rank none = 0
option_rank (some n) = suc n

-- `Ord for HeapCandidate`: the scores are compared the other way round.
unfoldable pub candidate_cmp : HeapCandidate → HeapCandidate → Ordering
candidate_cmp a b = then_with (compare (total_rank b.score) (total_rank a.score)) (
    then_with (compare (option_rank a.label_order_key) (option_rank b.label_order_key))
      (then_with (compare a.shard_rank b.shard_rank) (compare a.slot b.slot)))

pub record QueryOptions : Type 0 where
  pub stable_label_order : Bool
  pub allowed_labels : List ℕ
  pub allowed_label_bitmaps : List LabelBitmap
  pub has_allowed_labels : Bool
  pub initial_floor : Option F32
  pub tie_complete : Bool

pub data StreamEvent : Type 0 where
  message : (shard_rank : ℕ) → StreamSearchResponse → StreamEvent
  error : (shard_rank : ℕ) → Status → StreamEvent
  closed : (shard_rank : ℕ) → StreamEvent

-- A shard's watch channel holds the last request sent on it.
pub record ShardControl : Type 0 where
  pub sender : StreamSearchRequest
  pub completed : Bool

-- `Drop for ShardControl`: what the shard is told last.
pub drop_control : ShardControl → StreamSearchRequest
drop_control c = if c.completed then c.sender else stop

pub record Collector : Type 0 where
  pub heap : List HeapCandidate
  pub tie_candidates : List HeapCandidate
  pub published_floor : F32
  pub completed : List Bool
  pub remaining : ℕ
  pub outbound : List (Option ShardControl)

-- `flag.then(|| labels[i])`
unfoldable pub label_at : Bool → List ℕ → ℕ → Result (Option ℕ)
label_at false labels i = ok none
label_at true labels i = do l ← expect (get_elem? labels i); ok (some l)

abbrev pub shard_message : Text → Text → Text
shard_message address rest = text "shard " ++ (address ++ rest)

-- The new floor goes to every shard that has not completed.
unfoldable pub broadcast :
    F32 → List Bool → List (Option ShardControl) → Result (List (Option ShardControl))
broadcast floor completed [] = ok []
broadcast floor [] (control ∷ outbound) = panic
broadcast floor (true ∷ completed) (control ∷ outbound) = do
  rest ← broadcast floor completed outbound
  ok (control ∷ rest)
broadcast floor (false ∷ completed) (control ∷ outbound) = do
  c ← expect control
  rest ← broadcast floor completed outbound
  ok (some (record c { sender = floor_update floor }) ∷ rest)

module _ (options : QueryOptions) (k : ℕ) where
  -- What one candidate does to the heap and the tie candidates.
  unfoldable pub absorb :
      HeapCandidate
      → List HeapCandidate × List HeapCandidate
      → List HeapCandidate × List HeapCandidate
  absorb c (heap, ties) =
      (offer candidate_cmp k c heap, if options.tie_complete then ties ++ c ∷ [] else ties)

  -- The loop over `batch.scores` zipped with `batch.slots`, from position `i`.
  unfoldable pub scan_rows :
      Text
      → ℕ
      → List ℕ
      → ℕ
      → List F32
      → List ℕ
      → List HeapCandidate × List HeapCandidate
      → Result (List HeapCandidate × List HeapCandidate)
  scan_rows address rank labels i [] slots acc = ok acc
  scan_rows address rank labels i (score ∷ scores) [] acc = ok acc
  scan_rows address rank labels i (score ∷ scores) (slot ∷ slots) acc = do
    refuse_if (is_nan score)
        (status internal (shard_message address (text " returned a NaN score")))
    label ← label_at (not (is_empty labels)) labels i
    key ← label_at options.stable_label_order labels i
    let candidate : HeapCandidate = record {
      score = score;
      shard_rank = rank;
      slot = slot;
      label = label;
      label_order_key = key;
    }
    scan_rows address rank labels (suc i) scores slots (absorb candidate acc)

  unfoldable pub raise_published : F32 → Collector → Result Collector
  raise_published floor s = do
    outbound ← broadcast floor s.completed s.outbound
    ok (record s {
      published_floor = floor;
      tie_candidates =
          if options.tie_complete
          then retain (λ c. float_ge c.score floor) s.tie_candidates
          else s.tie_candidates;
      outbound = outbound;
    })

  -- A full heap's root is the floor below which nothing can enter the answer.
  unfoldable pub publish_root : Option HeapCandidate → Collector → Result Collector
  publish_root none s = panic
  publish_root (some root) s =
      let raised = raise_published root.score s in
      if float_gt root.score s.published_floor then raised else ok s

  unfoldable pub publish : Collector → Result Collector
  publish s = if length s.heap == k then publish_root (last s.heap) s else ok s

  abbrev pub misaligned : StreamSearchBatch → Bool
  misaligned b =
      not (length b.scores == length b.slots)
      || (not (is_empty b.labels) && not (length b.labels == length b.scores))

  unfoldable pub on_batch : Text → ℕ → StreamSearchBatch → Collector → Result Collector
  on_batch address rank b s = do
    done ← expect (get_elem? s.completed rank)
    refuse_if done (
        status internal
          (shard_message address (text " emitted candidates after its completion summary")))
    refuse_if (misaligned b)
        (status internal (shard_message address (text " returned misaligned streaming candidates")))
    refuse_if (options.stable_label_order && (is_empty b.labels && not (is_empty b.scores))) (
        status failed_precondition (
          shard_message address
            (text " returned unlabelled candidates but stable label order was requested")))
    scanned ← scan_rows address rank b.labels 0 b.scores b.slots (s.heap, s.tie_candidates)
    publish (record s { heap = scanned.0; tie_candidates = scanned.1 })

  unfoldable pub on_summary : Text → ℕ → StreamSearchSummary → Collector → Result Collector
  on_summary address rank m s = do
    done ← expect (get_elem? s.completed rank)
    refuse_if done
        (status internal (shard_message address (text " sent more than one completion summary")))
    refuse_if (not m.completed)
        (status aborted (shard_message address (text " did not complete its streaming scan")))
    slot ← expect (get_elem? s.outbound rank)
    control ← expect slot
    ok (record s {
      completed = set s.completed rank true;
      remaining = s.remaining - 1;
      outbound = set s.outbound rank none;
    })

  unfoldable pub on_event : List Probe → StreamEvent → Collector → Result Collector
  on_event shards (message rank (batch b)) s = do
    shard ← expect (get_elem? shards rank)
    on_batch shard.address rank b s
  on_event shards (message rank (summary m)) s = do
    shard ← expect (get_elem? shards rank)
    on_summary shard.address rank m s
  on_event shards (message rank absent) s = do
    shard ← expect (get_elem? shards rank)
    err (
        status internal
          (shard_message shard.address (text " returned an empty streaming response")))
  on_event shards (error rank e) s = do
    shard ← expect (get_elem? shards rank)
    err (node_error shard.address e)
  on_event shards (closed rank) s = do
    shard ← expect (get_elem? shards rank)
    done ← expect (get_elem? s.completed rank)
    refuse_if (not done) (
        unavailable_status node_unreachable
          (shard.address ++ text " closed its streaming scan without a completion summary"))
    ok s

  -- `while remaining > 0`: a list of events that ends is a channel that every task has closed.
  unfoldable pub drain : List Probe → List StreamEvent → Collector → Result Collector
  drain shards [] s =
      if s.remaining == 0
      then ok s
      else err (status internal (text "all shard response streams closed before completing"))
  drain shards (e ∷ es) s =
      let next = on_event shards e s >>= drain shards es in if s.remaining == 0 then ok s else next

  -- The tie candidates at or above the boundary, or the heap.
  unfoldable pub candidates : Collector → List HeapCandidate
  candidates s =
      if options.tie_complete
      then elim (last s.heap) [
        | none ↦ s.tie_candidates
        | some boundary ↦ retain (λ c. float_ge c.score boundary.score) s.tie_candidates
      ]
      else s.heap

-- The answer, best first.
unfoldable pub neighbours : List Probe → List HeapCandidate → Result (List Neighbour)
neighbours shards [] = ok []
neighbours shards (c ∷ cs) = do
  shard ← expect (get_elem? shards c.shard_rank)
  rest ← neighbours shards cs
  ok (
      record {
        score = c.score;
        label = c.label;
        address = shard.address;
        index_id = shard.index_id;
        slot = c.slot;
      }
      ∷ rest)

-- The start request of one shard.
unfoldable pub start_request : Probe → List F32 → Text → QueryOptions → StreamSearchRequest
start_request shard vector request_id options = start (record {
  index_id = shard.index_id;
  vector = vector;
  initial_floor = options.initial_floor;
  request_id = request_id;
  allowed_labels = options.allowed_labels;
  has_allowed_labels = options.has_allowed_labels;
  allowed_label_bitmaps = options.allowed_label_bitmaps;
})

-- What the network answers when a stream is opened: the dial, then the call.
pub record Network : Type 0 where
  pub dial : Text → Result (Unit {0})
  pub stream_search : Text → StreamSearchRequest → Result (Unit {0})

-- The loop that opens a stream on every shard.
unfoldable pub open_shards :
    Network → List F32 → Text → QueryOptions → List Probe → Result (List (Option ShardControl))
unfolding start_request
open_shards net vector request_id options [] = ok []
open_shards net vector request_id options (shard ∷ shards) = do
  net.dial shard.address
  let request = start_request shard vector request_id options
  map_err (node_error shard.address) (net.stream_search shard.address request)
  rest ← open_shards net vector request_id options shards
  ok (some (record { sender = request; completed = false }) ∷ rest)

-- `initial_floor.unwrap_or(f32::NEG_INFINITY)`
abbrev pub floor_or_lowest : Option F32 → F32
floor_or_lowest none = neg_infinity
floor_or_lowest (some f) = f

unfoldable pub initial_state : QueryOptions → List Probe → List (Option ShardControl) → Collector
initial_state options shards outbound = record {
  heap = [];
  tie_candidates = [];
  published_floor = floor_or_lowest options.initial_floor;
  completed = replicate (length shards) false;
  remaining = length shards;
  outbound = outbound;
}

unfoldable pub stream_query :
    Network
    → Pinned
    → List F32
    → ℕ
    → QueryOptions
    → Text
    → List StreamEvent
    → Result (List Neighbour)
unfolding open_shards initial_state
stream_query net pinned vector k options request_id events = do
  outbound ← open_shards net vector request_id options pinned.shards
  s ← drain options k pinned.shards events (initial_state options pinned.shards outbound)
  neighbours pinned.shards (sort candidate_cmp (candidates options k s))
