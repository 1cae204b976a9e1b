-- ===== src/Coordinator/Candidates/Opening.antt =====
-- coordinator/mod.rs: what `run_candidate_stream` does before its loop: the first message, the
-- checks of the start, the shards' streams, and the state in which the loop begins.
use turbovec_grpc.Prelude.{
  Bool, List, Option, Text, [], any, ap, contains, false, if◌then◌else◌, is_empty, length, min,
  none, not, refl, replicate, some, suc, text, true, zero, ℕ, ◌&&◌, ◌-◌, ◌==◌, ◌||◌, ◌∷◌, ◌≡◌,
}
use turbovec_grpc.Float.{F32, is_finite, is_nan}
use turbovec_grpc.Status.{
  Code, Result, Status, aborted, cancelled, deadline_exceeded, err, failed_precondition, internal,
  invalid_argument, not_found, ok, other, panic, refuse_if, resource_exhausted, status, unavailable,
  ◌>>=◌, ◌>>◌,
}
use turbovec_grpc.Wire.{StreamSearchRequest, start}
use turbovec_grpc.Service.Bitmaps.{validate_label_bitmaps}
use turbovec_grpc.Coordinator.{Pinned, Probe, node_error}
use turbovec_grpc.Coordinator.Collector.{ShardControl, floor_or_lowest}
use turbovec_grpc.Coordinator.Candidates.{
  CandidateRequest, CandidateResponse, Completion, LoopEvent, StartCandidates, Stream, Turn,
  candidate_absent, candidate_completion, candidate_floor, candidate_start, candidate_status,
  candidate_stop, crashes, forward_candidates, goes_on, returns, u32_mod,
}
use turbovec_grpc.Coordinator.Candidates.Received.{Delivers, missing}
use turbovec_grpc.Coordinator.Candidates.Ending.{Delivered, forward_candidates-Delivered}

-- The first item of the caller's stream.
pub data FirstItem : Type 0 where
  first_request : CandidateRequest → FirstItem
  first_failed : Status → FirstItem
  first_missing : FirstItem

unfoldable pub first_start : FirstItem → Result StartCandidates
first_start (first_request (candidate_start begin)) = ok begin
first_start (first_request (candidate_floor floor)) = err (
    status invalid_argument
      (text "first CollectionCandidateRequest must be StartCollectionCandidates"))
first_start (first_request candidate_stop) = err (
    status invalid_argument
      (text "first CollectionCandidateRequest must be StartCollectionCandidates"))
first_start (first_request candidate_absent) = err (
    status invalid_argument
      (text "first CollectionCandidateRequest must be StartCollectionCandidates"))
first_start (first_failed e) = err e
first_start first_missing =
    err (status invalid_argument (text "candidate stream closed before StartCollectionCandidates"))

abbrev floor_is_nan : Option F32 → Bool
floor_is_nan none = false
floor_is_nan (some floor) = is_nan floor

-- The checks of a start against the collection. The texts of the numbers are left out of the
-- messages.
unfoldable pub check_start : Pinned → StartCandidates → Result (Unit {0})
check_start pinned begin = do
  refuse_if (any (λ shard. not shard.info.labelled) pinned.shards) (
      status failed_precondition
        (text "candidate streaming requires stable labels on every collection shard"))
  refuse_if (not (length begin.vector == pinned.dim))
      (status invalid_argument (text "candidate query has another dim than the collection"))
  refuse_if (any (λ value. not (is_finite value)) begin.vector)
      (status invalid_argument (text "candidate query coordinate is not finite"))
  refuse_if
      (not begin.has_allowed_labels
        && (not (is_empty begin.allowed_labels) || not (is_empty begin.allowed_label_bitmaps)))
      (status invalid_argument (text "allowed label filters require has_allowed_labels=true"))
  refuse_if (not (is_empty begin.allowed_labels) && not (is_empty begin.allowed_label_bitmaps)) (
      status invalid_argument
        (text "allowed_labels and allowed_label_bitmaps are mutually exclusive"))
  validate_label_bitmaps begin.allowed_label_bitmaps
  refuse_if (floor_is_nan begin.initial_floor)
      (status invalid_argument (text "initial_floor must not be NaN"))
  ok tt

-- How the opening of a shard's stream turns out, once the shard can be dialled.
pub data Opened : Type 0 where
  opened timed_out : Opened
  refused : Status → Opened

-- The network, and what other parts of the program make: the scoring fingerprint, a digest, and
-- the random request id.
pub record Outside : Type 0 where
  pub dial : Text → Result (Unit {0})
  pub open_stream : Text → StreamSearchRequest → Opened
  pub fingerprint : Pinned → Text
  pub fresh_id : Text

-- A deadline, or a timeout that the transport reports as a cancellation.
abbrev pub expired_code : Code → Text → Bool
expired_code deadline_exceeded m = true
expired_code cancelled m = contains (text "Timeout") m
expired_code invalid_argument m = false
expired_code failed_precondition m = false
expired_code not_found m = false
expired_code aborted m = false
expired_code internal m = false
expired_code unavailable m = false
expired_code resource_exhausted m = false
expired_code (other n) m = false

abbrev pub expired : Status → Bool
expired e = expired_code e.code e.message

unfoldable pub opening_error : Text → Opened → Result (Unit {0})
opening_error address opened = ok tt
opening_error address timed_out =
    err (status unavailable (text "distributed candidate stream deadline exceeded"))
opening_error address (refused e) =
    if expired e
    then err (status unavailable (text "distributed candidate stream deadline exceeded"))
    else err (node_error address e)

-- The start request of a shard.
unfoldable pub shard_start : Text → StartCandidates → Probe → StreamSearchRequest
shard_start request_id begin shard = start (record {
  index_id = shard.index_id;
  vector = begin.vector;
  initial_floor = begin.initial_floor;
  request_id = request_id;
  allowed_labels = begin.allowed_labels;
  has_allowed_labels = begin.has_allowed_labels;
  allowed_label_bitmaps = begin.allowed_label_bitmaps;
})

-- The loop that opens a stream on every shard. Of an error only the text is used.
unfoldable pub open_candidates :
    Outside → Text → StartCandidates → List Probe → Result (List (Option ShardControl))
unfolding opening_error shard_start
open_candidates outside request_id begin [] = ok []
open_candidates outside request_id begin (shard ∷ shards) = do
  outside.dial shard.address
  let request = shard_start request_id begin shard
  opening_error shard.address (outside.open_stream shard.address request)
  rest ← open_candidates outside request_id begin shards
  ok (some (record { sender = request; completed = false }) ∷ rest)

-- `CollectionCandidateCompletion::default()` with an error.
unfoldable pub failed_completion : Text → Completion
failed_completion why = record {
  completed = false;
  emitted = 0;
  blocks_scanned = 0;
  floor_raises_applied = 0;
  scoring_fingerprint = [];
  topology_generation = 0;
  shards_total = 0;
  shards_completed = 0;
  error_text = why;
}

-- The completion in which the loop begins; `send_incomplete_candidate_completion` sends it with an
-- error.
unfoldable pub fresh_completion : Outside → Pinned → Text → Completion
fresh_completion outside pinned why = record {
  completed = false;
  emitted = 0;
  blocks_scanned = 0;
  floor_raises_applied = 0;
  scoring_fingerprint = outside.fingerprint pinned;
  topology_generation = pinned.generation;
  shards_total = min (length pinned.shards) (u32_mod - 1);
  shards_completed = 0;
  error_text = why;
}

unfoldable pub begin_stream :
    Outside → Pinned → StartCandidates → List (Option ShardControl) → Stream
unfolding fresh_completion
begin_stream outside pinned begin outbound = record {
  completion = fresh_completion outside pinned [];
  completed = replicate (length pinned.shards) false;
  remaining = length pinned.shards;
  last_floor = floor_or_lowest begin.initial_floor;
  pending = [];
  inbound_open = true;
  outbound = outbound;
  sent = [];
}

-- The messages of a task that ended, or that waits.
unfoldable pub messages : Turn → Result (List CandidateResponse)
messages (goes_on s) = ok s.sent
messages (returns s) = ok s.sent
messages crashes = panic

unfoldable pub run_opened :
    Outside
    → Pinned
    → StartCandidates
    → List LoopEvent
    → Result (List (Option ShardControl))
    → Result (List CandidateResponse)
unfolding begin_stream fresh_completion messages
run_opened outside pinned begin events (ok outbound) =
    messages (forward_candidates pinned.shards events (begin_stream outside pinned begin outbound))
run_opened outside pinned begin events (err e) =
    ok (candidate_completion (fresh_completion outside pinned e.message) ∷ [])
run_opened outside pinned begin events panic = panic

unfoldable pub run_checked :
    Outside
    → Pinned
    → StartCandidates
    → List LoopEvent
    → Result (Unit {0})
    → Result (List CandidateResponse)
unfolding run_opened open_candidates
run_checked outside pinned begin events (err e) = ok (candidate_status e ∷ [])
run_checked outside pinned begin events panic = panic
run_checked outside pinned begin events (ok u) = run_opened outside pinned begin events (
    open_candidates outside
      (if is_empty begin.request_id then outside.fresh_id else begin.request_id) begin
      pinned.shards)

unfoldable pub run_bound :
    Outside → Result Pinned → List LoopEvent → StartCandidates → Result (List CandidateResponse)
unfolding run_checked check_start failed_completion
run_bound outside (ok pinned) events begin =
    run_checked outside pinned begin events (check_start pinned begin)
run_bound outside (err e) events begin =
    ok (candidate_completion (failed_completion e.message) ∷ [])
run_bound outside panic events begin = panic

-- `run_candidate_stream`: the messages that the caller is sent, of what `collection` returns, the
-- first item of its stream and the events of the loop.
unfoldable pub run_candidate_stream :
    Outside → Result Pinned → FirstItem → List LoopEvent → Result (List CandidateResponse)
unfolding run_bound first_start
run_candidate_stream outside bound first events = opened_by (first_start first)
  where
    opened_by : Result StartCandidates → Result (List CandidateResponse)
    opened_by (ok begin) = run_bound outside bound events begin
    opened_by (err e) = ok (candidate_status e ∷ [])
    opened_by panic = panic

missing-replicate : (n : ℕ) → n ≡ missing (replicate n false)
missing-replicate zero = refl
missing-replicate (suc n) = ap suc (missing-replicate n)

begin_stream-Delivers :
    (outside : Outside) (pinned : Pinned) (begin : StartCandidates)
    (outbound : List (Option ShardControl))
    → Delivers []
        (replicate (length pinned.shards) false)
        (begin_stream outside pinned begin outbound)
unfolding begin_stream fresh_completion
begin_stream-Delivers outside pinned begin outbound = record {
  only_batches = tt;
  in_order = refl;
  whole_sent = (0, refl);
  counted = refl;
  marked = refl;
  left = missing-replicate (length pinned.shards);
  unfinished = refl;
}

-- Whatever events the loop takes, and however it ends, the caller has received batches that carry
-- the candidates of the events up to some point as they came, none lost and none twice but those
-- at the end that are still unsent, then at most one completion, the last message, which counts
-- what was sent; a completion that claims to be complete has left nothing unsent, and every shard
-- of the collection reported a completed scan.
pub candidate_loop-Delivered :
    (outside : Outside) (pinned : Pinned) (begin : StartCandidates)
    (outbound : List (Option ShardControl)) (events : List LoopEvent) (s : Stream)
    → forward_candidates pinned.shards events (begin_stream outside pinned begin outbound)
      ≡ returns s
    → Delivered [] (replicate (length pinned.shards) false) events s.sent
candidate_loop-Delivered outside pinned begin outbound events s h =
    forward_candidates-Delivered pinned.shards events [] (replicate (length pinned.shards) false)
      (begin_stream outside pinned begin outbound) s
      (begin_stream-Delivers outside pinned begin outbound) h
