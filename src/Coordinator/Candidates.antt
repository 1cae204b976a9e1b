-- ===== src/Coordinator/Candidates.antt =====
-- coordinator/mod.rs: the loop of `run_candidate_stream`, which forwards the candidates of every
-- shard as they come, `flush_candidate_bytes` and the completion it sends in the end.
pub mod Bytes
pub mod Received
pub mod Delivery
pub mod Turns
pub mod Ending
pub mod Opening
use turbovec_grpc.Prelude.{
  Bool, List, Option, Text, [], false, get_elem?, if◌then◌else◌, is_empty, leb, length, map, min,
  none, not, set, some, suc, text, true, u64_mod, zero, ℕ, ◌%◌, ◌*◌, ◌++◌, ◌+◌, ◌-◌, ◌/◌, ◌==◌, ◌^◌,
  ◌||◌, ◌∷◌,
}
use turbovec_grpc.Float.{F32, float_gt, is_nan}
use turbovec_grpc.Status.{
  Result, Status, err, expect, internal, ok, panic, refuse_if, status, ◌>>=◌, ◌>>◌,
}
use turbovec_grpc.Wire.{
  LabelBitmap, StreamSearchBatch, StreamSearchSummary, absent, batch, stop, summary,
}
use turbovec_grpc.Coordinator.{Probe, node_error}
use turbovec_grpc.Coordinator.Collector.{
  ShardControl, StreamEvent, broadcast, closed, error, message, shard_message,
}

-- `CANDIDATE_BATCH_BYTES`
abbrev pub candidate_batch_bytes : ℕ
candidate_batch_bytes = 64 * 1024

abbrev pub u32_mod : ℕ
u32_mod = 2 ^ 32

-- `saturating_add` of an unsigned integer below `modulus`.
unfoldable pub saturating_add : ℕ → ℕ → ℕ → ℕ
saturating_add modulus a b = min (a + b) (modulus - 1)

-- `to_le_bytes` of an integer of `width` bytes.
unfoldable pub to_le_bytes : ℕ → ℕ → List ℕ
to_le_bytes zero n = []
to_le_bytes (suc width) n = n % 256 ∷ to_le_bytes width (n / 256)

-- A candidate on the wire: its label, then the bits of its score.
unfoldable pub candidate_bytes : ℕ × F32 → List ℕ
unfolding to_le_bytes
candidate_bytes (label, score) = to_le_bytes 8 label ++ to_le_bytes 4 score

pub record StartCandidates : Type 0 where
  pub request_id : Text
  pub vector : List F32
  pub initial_floor : Option F32
  pub allowed_labels : List ℕ
  pub has_allowed_labels : Bool
  pub allowed_label_bitmaps : List LabelBitmap

-- The payload of `CollectionCandidateRequest`.
pub data CandidateRequest : Type 0 where
  candidate_start : StartCandidates → CandidateRequest
  candidate_floor : F32 → CandidateRequest
  candidate_stop : CandidateRequest
  candidate_absent : CandidateRequest

pub record Completion : Type 0 where
  pub completed : Bool
  pub emitted : ℕ
  pub blocks_scanned : ℕ
  pub floor_raises_applied : ℕ
  pub scoring_fingerprint : Text
  pub topology_generation : ℕ
  pub shards_total : ℕ
  pub shards_completed : ℕ
  pub error_text : Text

-- What is sent to the caller: a response or the status that ends the stream.
pub data CandidateResponse : Type 0 where
  candidate_batch : List ℕ → CandidateResponse
  candidate_completion : Completion → CandidateResponse
  candidate_status : Status → CandidateResponse

-- What the `select!` of the loop takes: the caller has gone, the deadline, a tick of the flush
-- timer, the caller's stream, a shard's event, or the end of all shard streams.
pub data LoopEvent : Type 0 where
  caller_gone deadline flush_tick : LoopEvent
  inbound : CandidateRequest → LoopEvent
  inbound_failed : Status → LoopEvent
  inbound_closed : LoopEvent
  shard_event : StreamEvent → LoopEvent
  shards_gone : LoopEvent

pub record Stream : Type 0 where
  pub completion : Completion
  pub completed : List Bool
  pub remaining : ℕ
  pub last_floor : F32
  pub pending : List ℕ
  pub inbound_open : Bool
  pub outbound : List (Option ShardControl)
  pub sent : List CandidateResponse

-- The loop goes on, the task returns, or it panics.
pub data Turn : Type 0 where
  goes_on : Stream → Turn
  returns : Stream → Turn
  crashes : Turn

unfoldable pub send_completion : Completion → Stream → Stream
send_completion c s = record s { completion = c; sent = s.sent ++ candidate_completion c ∷ [] }

unfoldable pub give_up : Text → Stream → Turn
unfolding send_completion
give_up why s = returns (send_completion (record s.completion { error_text = why }) s)

-- `flush_candidate_bytes` and the count of what it sent.
unfoldable pub flush_pending : Stream → Stream
unfolding saturating_add
flush_pending s = if is_empty s.pending then s else record s {
  completion = record s.completion {
    emitted = saturating_add u64_mod s.completion.emitted (length s.pending / 12);
  };
  pending = [];
  sent = s.sent ++ candidate_batch s.pending ∷ [];
}

-- The stop that goes to every shard that still has a control.
abbrev stop_control : Option ShardControl → Option ShardControl
stop_control none = none
stop_control (some c) = some (record c { sender = stop })

unfoldable pub stop_all : Stream → Stream
stop_all s = record s { outbound = map stop_control s.outbound }

-- `?` on what may panic, and on a status that becomes the completion's error.
unfoldable pub or_give_up : Stream → Result Stream → Turn
unfolding give_up
or_give_up s (ok s') = goes_on s'
or_give_up s (err e) = give_up e.message s
or_give_up s panic = crashes

unfoldable pub on_floor : F32 → Stream → Turn
unfolding give_up or_give_up
on_floor floor s =
    let raised = (do
      outbound ← broadcast floor s.completed s.outbound
      ok (record s { last_floor = floor; outbound = outbound })) in
    if is_nan floor
    then give_up (text "candidate floor must not be NaN") s
    else if float_gt floor s.last_floor
    then or_give_up s raised
    else goes_on s

unfoldable pub on_inbound : CandidateRequest → Stream → Turn
unfolding on_floor give_up stop_all
on_inbound (candidate_floor floor) s = on_floor floor s
on_inbound candidate_stop s = give_up (text "candidate stream cancelled by caller") (stop_all s)
on_inbound (candidate_start again) s =
    give_up (text "candidate stream received a second or empty start") s
on_inbound candidate_absent s = give_up (text "candidate stream received a second or empty start") s

-- The loop over the labels zipped with the scores.
unfoldable pub extend_pending : Text → List ℕ → List F32 → List ℕ → Result (List ℕ)
unfolding candidate_bytes
extend_pending address [] scores pending = ok pending
extend_pending address (label ∷ labels) [] pending = ok pending
extend_pending address (label ∷ labels) (score ∷ scores) pending = do
  refuse_if (is_nan score) (status internal (shard_message address (text " returned a NaN score")))
  extend_pending address labels scores (pending ++ candidate_bytes (label, score))

unfoldable pub flush_if_full : Stream → Stream
unfolding flush_pending
flush_if_full s = if leb candidate_batch_bytes (length s.pending) then flush_pending s else s

abbrev pub unlabelled : StreamSearchBatch → Bool
unlabelled b = not (length b.scores == length b.slots) || not (length b.labels == length b.scores)

-- The state that a batch leaves, or the error of the completion.
unfoldable pub batch_taken : Text → ℕ → StreamSearchBatch → Stream → Result Stream
unfolding extend_pending flush_if_full
batch_taken address rank b s = do
  done ← expect (get_elem? s.completed rank)
  refuse_if done
      (status internal (shard_message address (text " emitted candidates after completion")))
  refuse_if (unlabelled b) (
      status internal
        (shard_message address (text " returned unlabelled or misaligned candidates")))
  pending ← extend_pending address b.labels b.scores s.pending
  ok (flush_if_full (record s { pending = pending }))

unfoldable pub count_summary : StreamSearchSummary → Stream → Stream
unfolding saturating_add
count_summary m s = record s {
  completion = record s.completion {
    blocks_scanned = saturating_add u64_mod s.completion.blocks_scanned m.blocks_scanned;
    floor_raises_applied =
        saturating_add u64_mod s.completion.floor_raises_applied m.floor_raises_applied;
  };
}

-- A shard that has completed: its control is dropped.
unfoldable pub retire : ℕ → Stream → Result Stream
unfolding saturating_add
retire rank s = do
  slot ← expect (get_elem? s.outbound rank)
  control ← expect slot
  ok (record s {
    completion = record s.completion {
      shards_completed = saturating_add u32_mod s.completion.shards_completed 1;
    };
    completed = set s.completed rank true;
    remaining = s.remaining - 1;
    outbound = set s.outbound rank none;
  })

unfoldable pub on_completion : Text → ℕ → StreamSearchSummary → Option Bool → Stream → Turn
unfolding give_up or_give_up count_summary retire
on_completion address rank m none s = crashes
on_completion address rank m (some true) s =
    give_up (shard_message address (text " sent more than one completion")) s
on_completion address rank m (some false) s =
    let counted = count_summary m s in
    if m.completed
    then or_give_up counted (retire rank counted)
    else give_up (shard_message address (text " did not complete its candidate scan")) counted

unfoldable pub on_closed : Text → Option Bool → Stream → Turn
unfolding give_up
on_closed address none s = crashes
on_closed address (some true) s = goes_on s
on_closed address (some false) s =
    give_up (address ++ text " closed its candidate scan without completion") s

unfoldable pub shard_turn : Text → StreamEvent → Stream → Turn
unfolding or_give_up batch_taken on_completion on_closed give_up
shard_turn address (message rank (batch b)) s = or_give_up s (batch_taken address rank b s)
shard_turn address (message rank (summary m)) s =
    on_completion address rank m (get_elem? s.completed rank) s
shard_turn address (message rank absent) s =
    give_up (shard_message address (text " returned an empty candidate response")) s
shard_turn address (error rank e) s = give_up (node_error address e).message s
shard_turn address (closed rank) s = on_closed address (get_elem? s.completed rank) s

abbrev pub rank_of : StreamEvent → ℕ
rank_of (message rank response) = rank
rank_of (error rank e) = rank
rank_of (closed rank) = rank

-- The address is that of `pinned.shards[shard_rank]`.
unfoldable pub on_shard : List Probe → StreamEvent → Stream → Turn
unfolding shard_turn
on_shard shards e s = elim (get_elem? shards (rank_of e)) [
  | none ↦ crashes
  | some shard ↦ shard_turn shard.address e s
]

-- One turn of the loop. A tick without pending bytes and a message of a stream that has ended are
-- not taken.
unfoldable pub turn : List Probe → LoopEvent → Stream → Turn
unfolding stop_all give_up flush_pending on_inbound on_shard
turn shards caller_gone s = returns s
turn shards deadline s =
    give_up (text "distributed candidate stream deadline exceeded") (stop_all s)
turn shards flush_tick s = goes_on (flush_pending s)
turn shards (inbound request) s = if s.inbound_open then on_inbound request s else goes_on s
turn shards (inbound_failed e) s =
    if s.inbound_open
    then give_up (text "candidate request stream failed: " ++ e.message) s
    else goes_on s
turn shards inbound_closed s = goes_on (record s { inbound_open = false })
turn shards (shard_event e) s = on_shard shards e s
turn shards shards_gone s = give_up (text "all shard streams closed before completion") s

-- What follows the loop.
unfoldable pub conclude : Stream → Stream
unfolding flush_pending send_completion
conclude s =
    let flushed = flush_pending s in
    send_completion (record flushed.completion { completed = true }) flushed

unfoldable pub and_then : Turn → (Stream → Turn) → Turn
and_then (goes_on s) next = next s
and_then (returns s) next = returns s
and_then crashes next = crashes

-- `while remaining > 0`, over the events that it takes; where they run out it is waiting.
unfoldable pub forward_candidates : List Probe → List LoopEvent → Stream → Turn
unfolding turn conclude and_then
forward_candidates shards [] s = if s.remaining == 0 then returns (conclude s) else goes_on s
forward_candidates shards (e ∷ es) s =
    let rest = and_then (turn shards e s) (forward_candidates shards es) in
    if s.remaining == 0 then returns (conclude s) else rest
