-- ===== src/Coordinator/Candidates/Received.antt =====
-- coordinator/mod.rs: what `run_candidate_stream` has received and what it owes the caller.
use turbovec_grpc.Prelude.{
  All, Bool, List, [], false, if◌then◌else◌, length, min, set, suc, true, u64_mod, ℕ, ◌*◌, ◌++◌,
  ◌-◌, ◌/◌, ◌∷◌, ◌≡◌, ◌⊎◌,
}
use turbovec_grpc.Float.{F32}
use turbovec_grpc.Wire.{absent, batch, summary}
use turbovec_grpc.Coordinator.Collector.{closed, error, message}
use turbovec_grpc.Coordinator.Candidates.{
  CandidateResponse, Completion, LoopEvent, Stream, Turn, caller_gone, candidate_batch,
  candidate_completion, candidate_status, crashes, deadline, flush_tick, goes_on, inbound,
  inbound_closed, inbound_failed, returns, shard_event, shards_gone,
}
use turbovec_grpc.Coordinator.Candidates.Bytes.{wire_bytes}

-- The candidates of an event.
abbrev pub paired : List ℕ → List F32 → List (ℕ × F32)
paired [] scores = []
paired (label ∷ labels) [] = []
paired (label ∷ labels) (score ∷ scores) = (label, score) ∷ paired labels scores

abbrev pub candidates_of : LoopEvent → List (ℕ × F32)
candidates_of (shard_event (message rank (batch b))) = paired b.labels b.scores
candidates_of (shard_event (message rank (summary m))) = []
candidates_of (shard_event (message rank absent)) = []
candidates_of (shard_event (error rank e)) = []
candidates_of (shard_event (closed rank)) = []
candidates_of caller_gone = []
candidates_of deadline = []
candidates_of flush_tick = []
candidates_of (inbound request) = []
candidates_of (inbound_failed e) = []
candidates_of inbound_closed = []
candidates_of shards_gone = []

-- The shards that have told of a completed scan.
abbrev pub mark : LoopEvent → List Bool → List Bool
mark (shard_event (message rank (summary m))) marks =
    if m.completed then set marks rank true else marks
mark (shard_event (message rank (batch b))) marks = marks
mark (shard_event (message rank absent)) marks = marks
mark (shard_event (error rank e)) marks = marks
mark (shard_event (closed rank)) marks = marks
mark caller_gone marks = marks
mark deadline marks = marks
mark flush_tick marks = marks
mark (inbound request) marks = marks
mark (inbound_failed e) marks = marks
mark inbound_closed marks = marks
mark shards_gone marks = marks

abbrev pub all_candidates : List LoopEvent → List (ℕ × F32)
all_candidates [] = []
all_candidates (e ∷ es) = candidates_of e ++ all_candidates es

abbrev pub all_marks : List LoopEvent → List Bool → List Bool
all_marks [] marks = marks
all_marks (e ∷ es) marks = all_marks es (mark e marks)

abbrev pub missing : List Bool → ℕ
missing [] = 0
missing (true ∷ marks) = missing marks
missing (false ∷ marks) = suc (missing marks)

-- The bytes of the batches among the messages that were sent.
abbrev pub bytes_of : List CandidateResponse → List ℕ
bytes_of [] = []
bytes_of (candidate_batch bytes ∷ sent) = bytes ++ bytes_of sent
bytes_of (candidate_completion c ∷ sent) = bytes_of sent
bytes_of (candidate_status e ∷ sent) = bytes_of sent

abbrev pub IsBatch : CandidateResponse → Type 0
IsBatch (candidate_batch bytes) = Unit
IsBatch (candidate_completion c) = ⊥
IsBatch (candidate_status e) = ⊥

-- What the loop keeps, of the candidates `cs` and the summaries that have come.
pub record Delivers (cs : List (ℕ × F32)) (marks : List Bool) (s : Stream) : Type 0 where
  pub only_batches : All IsBatch s.sent
  pub in_order : bytes_of s.sent ++ s.pending ≡ wire_bytes cs
  pub whole_sent : (n : ℕ) × (length (bytes_of s.sent) ≡ 12 * n)
  pub counted : s.completion.emitted ≡ min (length (bytes_of s.sent) / 12) (u64_mod - 1)
  pub marked : s.completed ≡ marks
  pub left : s.remaining ≡ missing marks
  pub unfinished : s.completion.completed ≡ false

-- The task's last message is a completion with the counts so far; there is none where the caller
-- has gone.
pub record GivesUp (s s' : Stream) : Type 0 where
  pub ending :
      (s'.sent ≡ s.sent)
      ⊎ ((c : Completion) × (s'.sent ≡ s.sent ++ candidate_completion c ∷ [])
          × (c.emitted ≡ s.completion.emitted)
          × (c.completed ≡ s.completion.completed))

-- How a turn may end.
abbrev pub TurnDelivers : LoopEvent → List (ℕ × F32) → List Bool → Stream → Turn → Type 0
TurnDelivers e cs marks s (goes_on s') = Delivers (cs ++ candidates_of e) (mark e marks) s'
TurnDelivers e cs marks s (returns s') = GivesUp s s'
TurnDelivers e cs marks s crashes = Unit
