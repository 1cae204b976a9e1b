-- ===== src/Tests/Queries.antt =====
-- A query over two shards, and the shapes of a collection: coordinator/mod.rs on small inputs.
use mathlib.Core.List.{Perm}
use turbovec_grpc.Prelude.{
  All, Bool, List, Option, [], arith, false, last, length, none, refl, some, take, true, u64_mod, ℕ,
  ◌++◌, ◌+◌, ◌/◌, ◌<◌, ◌↔◌, ◌∷◌, ◌≡◌, ◌≢◌, ◌≤◌, ◌⊎◌,
}
use turbovec_grpc.Float.{F32, float_ge, float_gt, is_nan, neg_infinity, total_rank, value_rank}
use turbovec_grpc.Status.{ok}
use turbovec_grpc.Wire.{
  Neighbour, StreamSearchResponse, batch, floor_update, positional, stop, summary,
}
use turbovec_grpc.TopK.{IsSorted, drop_last, insert, offer, push_all, sort}
use turbovec_grpc.TopK.Spec.{IsTopK}
use turbovec_grpc.Service.Calibration.{
  calibration_difference, calibration_difference_iff, first_difference,
}
use turbovec_grpc.Coordinator.{Pinned, Probe}
use turbovec_grpc.Coordinator.Bind.{
  IsComparable, bind, bind_iff, bind_rows, bound_at, refuse_difference,
}
use turbovec_grpc.Coordinator.Counts.{
  plan_counts, plan_counts-sum, plan_counts_even, plan_counts_overflow, sum, sum_u64,
}
use turbovec_grpc.Coordinator.Collector.{
  Collector, HeapCandidate, Network, QueryOptions, ShardControl, StreamEvent, absorb, broadcast,
  candidate_cmp, candidates, drain, initial_state, label_at, message, neighbours, on_batch,
  on_event, on_summary, open_shards, publish, publish_root, raise_published, scan_rows,
  start_request, stream_query,
}
use turbovec_grpc.Coordinator.Collector.Rows.{event_rows}
use turbovec_grpc.Coordinator.Collector.Invariant.{at_least}
use turbovec_grpc.Coordinator.Collector.Completion.{Completes}
use turbovec_grpc.Coordinator.Collector.Exact.{
  Admitted, Run, answer-ties, begin, deliver, rows_of, stream_query-IsTopK,
}

abbrev probe_at : ℕ → ℕ → Probe
probe_at c rows = record {
  address = c ∷ [];
  index_id = b'i' ∷ [];
  info = record {
    index_id = b'i' ∷ [];
    kind = positional;
    dim = 8;
    bit_width = 4;
    len = rows;
    labelled = false;
    generation = 0;
  };
  calibration = record { state = 2; tqplus_shift = 1 ∷ []; tqplus_scale = 3 ∷ [] };
}

abbrev two_shards : List Probe
two_shards = probe_at b'a' 10 ∷ probe_at b'b' 5 ∷ []

abbrev two_bound : Pinned
two_bound = record {
  generation = 7;
  shards = two_shards;
  dim = 8;
  rows = 15;
  calibration = (probe_at b'a' 10).calibration;
}

abbrev query_options : Bool → QueryOptions
query_options ties = record {
  stable_label_order = false;
  allowed_labels = [];
  allowed_label_bitmaps = [];
  has_allowed_labels = false;
  initial_floor = none;
  tie_complete = ties;
}

abbrev finished : StreamSearchResponse
finished =
    summary (record { completed = true; emitted = 2; blocks_scanned = 1; floor_raises_applied = 0 })

-- 1.0 and 0.5 from the first shard, 2.0 from the second.
abbrev first_rows : StreamEvent
first_rows =
    message 0
      (batch (record { scores = 0x3f800000 ∷ 0x3f000000 ∷ []; slots = 4 ∷ 9 ∷ []; labels = [] }))

abbrev second_rows : StreamEvent
second_rows = message 1 (batch (record { scores = 0x40000000 ∷ []; slots = 2 ∷ []; labels = [] }))

abbrev two_streams : List StreamEvent
two_streams = first_rows ∷ message 0 finished ∷ second_rows ∷ message 1 finished ∷ []

abbrev reachable : Network
reachable = record { dial = λ _. ok tt; stream_search = λ _ _. ok tt }

abbrev best_two : List Neighbour
best_two =
    record { score = 0x40000000; label = none; address = b'b' ∷ []; index_id = b'i' ∷ []; slot = 2 }
    ∷ record {
      score = 0x3f800000;
      label = none;
      address = b'a' ∷ [];
      index_id = b'i' ∷ [];
      slot = 4;
    }
    ∷ []

two_streams-answer :
    stream_query reachable two_bound [] 2 (query_options false) [] two_streams ≡ ok best_two
unfolding stream_query open_shards initial_state start_request drain on_event on_batch on_summary
    scan_rows absorb offer insert candidate_cmp total_rank is_nan publish publish_root
    raise_published broadcast candidates sort push_all neighbours label_at drop_last float_gt
    value_rank
two_streams-answer = refl

neg_infinity_real : is_nan neg_infinity ≡ false
unfolding is_nan
neg_infinity_real = refl

two_streams-Admitted : All (λ e. All (Admitted neg_infinity) (event_rows false e)) two_streams
unfolding event_rows float_gt is_nan value_rank
two_streams-Admitted = ((refl, (refl, tt)), (tt, ((refl, tt), (tt, tt))))

stream_query-IsTopK_example :
    (taken left : List StreamEvent) × (outbound : List (Option ShardControl)) × (s : Collector)
    × (two_streams ≡ taken ++ left)
    × ((rank : ℕ) → rank < 2 → Completes rank taken)
    × (open_shards reachable [] [] (query_options false) two_shards ≡ ok outbound)
    × (drain
          (query_options false)
          2
          two_shards
          taken
          (initial_state (query_options false) two_shards outbound)
        ≡ ok s)
    × (neighbours two_shards (sort candidate_cmp (candidates (query_options false) 2 s))
        ≡ ok best_two)
    × ((skipped : List HeapCandidate)
        → All (λ c. Admitted neg_infinity c × (float_gt s.published_floor c.score ≡ true)) skipped
        → IsTopK candidate_cmp 2
            (rows_of (query_options false) 2 two_shards neg_infinity taken ++ skipped)
            (sort candidate_cmp (candidates (query_options false) 2 s)))
stream_query-IsTopK_example =
    stream_query-IsTopK reachable two_bound [] 2 (query_options false) [] two_streams neg_infinity
      {answer = best_two} refl neg_infinity_real refl two_streams-Admitted two_streams-answer

bind_example : (bind 7 two_shards ≡ ok two_bound) ↔ (
    All (IsComparable (probe_at b'a' 10)) two_shards
    × (two_bound ≡ bound_at 7 (probe_at b'a' 10) (probe_at b'b' 5 ∷ [])))
bind_example = bind_iff 7 (probe_at b'a' 10) (probe_at b'b' 5 ∷ []) two_bound

two_shards-bind : bind 7 two_shards ≡ ok two_bound
unfolding bind bind_rows refuse_difference calibration_difference first_difference
two_shards-bind = refl

plan_counts_even_example :
    (counts : List ℕ) × (plan_counts 10 3 [] ≡ ok counts)
    × (length counts ≡ 3)
    × (sum counts ≡ 10)
    × All (λ c. (10 / 3 ≤ c) × (c ≤ 10 / 3 + 1)) counts
plan_counts_even_example = plan_counts_even 10 3 (omega arith)

uneven : plan_counts 10 2 (3 ∷ 7 ∷ []) ≡ ok (3 ∷ 7 ∷ [])
unfolding plan_counts sum_u64
uneven = refl

abbrev three_seven : List ℕ
three_seven = 3 ∷ 7 ∷ []

plan_counts-sum_example :
    (length three_seven ≡ 2) × ((sum three_seven ≡ 10) ⊎ (u64_mod ≤ sum three_seven))
plan_counts-sum_example = plan_counts-sum 10 2 three_seven three_seven uneven

plan_counts_overflow_example :
    (plan_counts 4 2 (18446744073709551615 ∷ 5 ∷ []) ≡ ok (18446744073709551615 ∷ 5 ∷ []))
    × (sum (18446744073709551615 ∷ 5 ∷ []) ≢ 4)
plan_counts_overflow_example =
    plan_counts_overflow 4 18446744073709551615 5 (omega arith) (omega arith) (omega arith)

abbrev one_shift : List F32
one_shift = 1 ∷ 2 ∷ []

abbrev other_shift : List F32
other_shift = 1 ∷ 4 ∷ []

abbrev one_scale : List F32
one_scale = 3 ∷ []

calibration_difference_example :
    (calibration_difference (one_shift, one_scale) (other_shift, one_scale) ≡ none)
    ↔ ((one_shift ≡ other_shift) × (one_scale ≡ one_scale))
calibration_difference_example =
    calibration_difference_iff one_shift one_scale other_shift one_scale

-- One batch of a tie-complete query, with `k` of one.
abbrev tie_start : Collector
tie_start = record {
  heap = [];
  tie_candidates = [];
  published_floor = neg_infinity;
  completed = false ∷ false ∷ [];
  remaining = 2;
  outbound =
      some (record { sender = stop; completed = false })
      ∷ some (record { sender = stop; completed = false })
      ∷ [];
}

abbrev candidate_of : F32 → ℕ → HeapCandidate
candidate_of score slot = record {
  score = score;
  shard_rank = 0;
  slot = slot;
  label = none;
  label_order_key = none;
}

abbrev tie_end : Collector
tie_end = record {
  heap = candidate_of 0x3f800000 4 ∷ [];
  tie_candidates = candidate_of 0x3f800000 4 ∷ [];
  published_floor = 0x3f800000;
  completed = false ∷ false ∷ [];
  remaining = 2;
  outbound =
      some (record { sender = floor_update 0x3f800000; completed = false })
      ∷ some (record { sender = floor_update 0x3f800000; completed = false })
      ∷ [];
}

tie_step : on_event (query_options true) 1 two_shards first_rows tie_start ≡ ok tie_end
unfolding on_event on_batch scan_rows absorb offer insert candidate_cmp total_rank is_nan publish
    publish_root raise_published broadcast label_at drop_last float_gt float_ge value_rank
tie_step = refl

tie-Run :
    Run
      (query_options true)
      1
      two_shards
      neg_infinity
      tie_end
      (candidate_of 0x3f800000 4 ∷ candidate_of 0x3f000000 9 ∷ [])
      []
unfolding initial_state event_rows float_gt is_nan value_rank
tie-Run =
    deliver
      (begin (
        some (record { sender = stop; completed = false })
        ∷ some (record { sender = stop; completed = false })
        ∷ []))
      first_rows tie_end tie_step (refl, (refl, tt))

tie_root :
    last (
      take 1
        (sort candidate_cmp (candidate_of 0x3f800000 4 ∷ candidate_of 0x3f000000 9 ∷ [] ++ [])))
    ≡ some (candidate_of 0x3f800000 4)
unfolding sort push_all insert candidate_cmp total_rank
tie_root = refl

answer-ties_example :
    Perm
      (sort candidate_cmp (candidates (query_options true) 1 tie_end))
      (at_least 0x3f800000 ((candidate_of 0x3f800000 4 ∷ candidate_of 0x3f000000 9 ∷ []) ++ []))
    × IsSorted candidate_cmp (sort candidate_cmp (candidates (query_options true) 1 tie_end))
answer-ties_example =
    answer-ties (query_options true) 1 two_shards neg_infinity refl neg_infinity_real {s = tie_end}
      {sent = candidate_of 0x3f800000 4 ∷ candidate_of 0x3f000000 9 ∷ []} {skipped = []}
      (candidate_of 0x3f800000 4) refl tie-Run tie_root
