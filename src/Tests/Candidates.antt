-- ===== src/Tests/Candidates.antt =====
-- A candidate stream of the coordinator, its bytes and its label bitmaps on small inputs.
use turbovec_grpc.Prelude.{
  List, Option, [], any, arith, false, get_elem?, length, none, refl, some, true, ℕ, ◌*◌, ◌++◌, ◌/◌,
  ◌∷◌, ◌≡◌,
}
use turbovec_grpc.Float.{F32, is_nan, neg_infinity}
use turbovec_grpc.Status.{Result, expect, ok}
use turbovec_grpc.Wire.{
  LabelBitmap, StreamSearchBatch, StreamSearchSummary, batch, positional, stop, summary,
}
use turbovec_grpc.Service.Bitmaps.{
  bitmap_end, check_bitmaps, label_in_bitmaps, stray_bits, validate_label_bitmaps,
}
use turbovec_grpc.Service.Bitmaps.Members.{label_in_bitmaps_iff, names_label}
use turbovec_grpc.Coordinator.{Pinned, Probe}
use turbovec_grpc.Coordinator.Collector.{ShardControl, message}
use turbovec_grpc.Coordinator.Searching.{
  CollectionSearchRequest, CollectionSearchResponse, CoordinatorLimits, all_results, check_queries,
  check_request, fresh_pool, join_next, run_queries, search, spawn, store_result, task_of,
  vectors_of,
}
use turbovec_grpc.Coordinator.Searching.Ends.{run_queries_live}
use turbovec_grpc.Coordinator.Searching.Pools.{search_answers}
use turbovec_grpc.Coordinator.Candidates.{
  LoopEvent, StartCandidates, Stream, and_then, batch_taken, candidate_batch, candidate_bytes,
  candidate_completion, conclude, count_summary, deadline, extend_pending, flush_if_full,
  flush_pending, flush_tick, forward_candidates, on_completion, on_shard, or_give_up, retire,
  returns, saturating_add, send_completion, shard_event, shard_turn, to_le_bytes, turn,
}
use turbovec_grpc.Coordinator.Candidates.Bytes.{
  read_candidates, read_candidates-wire_bytes, wire_bytes,
}
use turbovec_grpc.Coordinator.Candidates.Ending.{Delivered}
use turbovec_grpc.Coordinator.Candidates.Opening.{
  Outside, begin_stream, candidate_loop-Delivered, fresh_completion, opened,
}

abbrev labelled_probe : Probe
labelled_probe = record {
  address = b'a' ∷ [];
  index_id = b'i' ∷ [];
  info = record {
    index_id = b'i' ∷ [];
    kind = positional;
    dim = 8;
    bit_width = 1;
    len = 2;
    labelled = true;
    generation = 1;
  };
  calibration = record { state = 2; tqplus_shift = []; tqplus_scale = [] };
}

abbrev one_bound : Pinned
one_bound = record {
  generation = 5;
  shards = labelled_probe ∷ [];
  dim = 8;
  rows = 2;
  calibration = record { state = 2; tqplus_shift = []; tqplus_scale = [] };
}

abbrev plain_start : StartCandidates
plain_start = record {
  request_id = b'r' ∷ [];
  vector = [];
  initial_floor = none;
  allowed_labels = [];
  has_allowed_labels = false;
  allowed_label_bitmaps = [];
}

abbrev plain_outside : Outside
plain_outside = record {
  dial = λ a. ok tt;
  open_stream = λ a request. opened;
  fingerprint = λ pinned. [];
  fresh_id = [];
}

abbrev one_control : List (Option ShardControl)
one_control = some (record { sender = stop; completed = false }) ∷ []

abbrev two_candidates : StreamSearchBatch
two_candidates = record { scores = 9 ∷ 4 ∷ []; slots = 0 ∷ 1 ∷ []; labels = 300 ∷ 7 ∷ [] }

abbrev scan_done : StreamSearchSummary
scan_done = record { completed = true; emitted = 2; blocks_scanned = 1; floor_raises_applied = 0 }

abbrev loop_events : List LoopEvent
loop_events =
    shard_event (message 0 (batch two_candidates))
    ∷ flush_tick
    ∷ shard_event (message 0 (summary scan_done))
    ∷ deadline
    ∷ []

abbrev two_pairs : List (ℕ × F32)
two_pairs = (300, 9) ∷ (7, 4) ∷ []

abbrev ended_stream : Stream
ended_stream = record {
  completion = record {
    completed = true;
    emitted = 2;
    blocks_scanned = 1;
    floor_raises_applied = 0;
    scoring_fingerprint = [];
    topology_generation = 5;
    shards_total = 1;
    shards_completed = 1;
    error_text = [];
  };
  completed = true ∷ [];
  remaining = 0;
  last_floor = neg_infinity;
  pending = [];
  inbound_open = true;
  outbound = none ∷ [];
  sent =
      candidate_batch (
        44 ∷ 1 ∷ 0 ∷ 0 ∷ 0 ∷ 0 ∷ 0 ∷ 0 ∷ 9 ∷ 0 ∷ 0 ∷ 0 ∷ 7 ∷ 0 ∷ 0 ∷ 0 ∷ 0 ∷ 0 ∷ 0 ∷ 0 ∷ 4 ∷ 0 ∷ 0
        ∷ 0 ∷ [])
      ∷ candidate_completion (record {
        completed = true;
        emitted = 2;
        blocks_scanned = 1;
        floor_raises_applied = 0;
        scoring_fingerprint = [];
        topology_generation = 5;
        shards_total = 1;
        shards_completed = 1;
        error_text = [];
      })
      ∷ [];
}

loop_ended :
    forward_candidates
      (labelled_probe ∷ [])
      loop_events
      (begin_stream plain_outside one_bound plain_start one_control)
    ≡ returns ended_stream
unfolding forward_candidates begin_stream fresh_completion and_then turn on_shard shard_turn
    batch_taken extend_pending candidate_bytes to_le_bytes flush_if_full flush_pending
    saturating_add or_give_up on_completion count_summary retire conclude send_completion is_nan
loop_ended = refl

candidate_loop-Delivered_example : Delivered [] (false ∷ []) loop_events ended_stream.sent
candidate_loop-Delivered_example =
    candidate_loop-Delivered plain_outside one_bound plain_start one_control loop_events
      ended_stream loop_ended

read_candidates-wire_bytes_example : read_candidates 2 (wire_bytes two_pairs ++ 1 ∷ []) ≡ two_pairs
read_candidates-wire_bytes_example =
    read_candidates-wire_bytes two_pairs (1 ∷ [])
      ((omega arith, omega arith), ((omega arith, omega arith), tt))

-- The labels 10, 12 and 13, then 30.
abbrev two_bitmaps : List LabelBitmap
two_bitmaps =
    record { base_label = 10; label_count = 4; bits = 13 ∷ [] }
    ∷ record { base_label = 30; label_count = 9; bits = 1 ∷ 0 ∷ [] }
    ∷ []

valid_bitmaps : validate_label_bitmaps two_bitmaps ≡ ok tt
unfolding validate_label_bitmaps check_bitmaps bitmap_end stray_bits
valid_bitmaps = refl

label_in_bitmaps_example : label_in_bitmaps two_bitmaps 12 ≡ ok (any (names_label 12) two_bitmaps)
label_in_bitmaps_example = label_in_bitmaps_iff two_bitmaps 12 valid_bitmaps

abbrev wide_limits : CoordinatorLimits
wide_limits = record { max_k = 10; max_queries_per_request = 4; max_concurrent_queries = 2 }

abbrev two_vectors : List F32
two_vectors = 1 ∷ 0 ∷ 0 ∷ 0 ∷ 0 ∷ 0 ∷ 0 ∷ 0 ∷ 2 ∷ 0 ∷ 0 ∷ 0 ∷ 0 ∷ 0 ∷ 0 ∷ 0 ∷ []

abbrev two_queries : CollectionSearchRequest
two_queries = record {
  queries = two_vectors;
  k = 3;
  stable_label_order = false;
  allowed_labels = [];
  has_allowed_labels = false;
  allowed_label_bitmaps = [];
  initial_floor = none;
  tie_complete = false;
}

-- A query that answers with the first coordinate of its vector.
abbrev first_coordinate : Pinned → List F32 → Result F32
first_coordinate pinned vector = expect (get_elem? vector 0)

abbrev two_answers : CollectionSearchResponse F32
two_answers = record { results = 1 ∷ 2 ∷ []; topology_generation = 5 }

-- The second query's task ends first.
abbrev second_first : ℕ → ℕ
second_first turn = 1

searched :
    search wide_limits (ok one_bound) first_coordinate second_first two_queries ≡ ok two_answers
unfolding search check_request check_queries vectors_of run_queries spawn join_next store_result
    all_results fresh_pool task_of validate_label_bitmaps check_bitmaps
searched = refl

search_answers_example :
    (two_answers.topology_generation ≡ one_bound.generation)
    × (length two_answers.results ≡ length two_vectors / 8)
    × ((i a : ℕ)
        → get_elem? (1 ∷ 2 ∷ []) i ≡ some a
        → (vector : List F32) × (get_elem? (vectors_of 2 8 two_vectors) i ≡ some vector)
          × (first_coordinate one_bound vector ≡ ok a))
search_answers_example =
    search_answers wide_limits one_bound first_coordinate second_first two_queries two_answers
      searched

abbrev doubled : ℕ → Result ℕ
doubled i = ok (2 * i)

run_queries_live_example :
    (slots : List (Option ℕ)) × (results : List ℕ) × (run_queries 2 3 doubled second_first 4
        (fresh_pool 3)
      ≡ ok slots)
    × (all_results slots ≡ ok results)
    × (length results ≡ 3)
run_queries_live_example =
    run_queries_live doubled 2 3 second_first (omega arith) (λ i h. (2 * i, refl))
