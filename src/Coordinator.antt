-- ===== src/Coordinator.antt =====
-- coordinator/mod.rs: the data that the coordinator keeps of its shards, and the errors it makes
-- of a node's failures.
use turbovec_grpc.Prelude.{List, Text, display, if◌then◌else◌, text, ℕ, ◌++◌}
use turbovec_grpc.Status.{
  Code, Status, aborted, cancelled, deadline_exceeded, failed_precondition, internal,
  invalid_argument, is_named, node_unreachable, not_found, other, resource_exhausted, status,
  unavailable, unavailable_status,
}
use turbovec_grpc.Wire.{Calibration, IndexInfo, ShardRef}
pub mod Collector
pub mod Counts
pub mod Bind
pub mod Probing
pub mod Topology
pub mod Moves
pub mod Candidates
pub mod Autoscaler
pub mod Listing
pub mod Searching

-- One shard as the coordinator found it on the node.
pub record Probe : Type 0 where
  pub address : Text
  pub index_id : Text
  pub info : IndexInfo
  pub calibration : Calibration

-- A collection that has been probed and found servable.
pub record Pinned : Type 0 where
  pub generation : ℕ
  pub shards : List Probe
  pub dim : ℕ
  pub rows : ℕ
  pub calibration : Calibration

-- `{:?}` of a status code stands in the text of an unreachable node.
debug_code : Code → Text
debug_code invalid_argument = text "InvalidArgument"
debug_code failed_precondition = text "FailedPrecondition"
debug_code not_found = text "NotFound"
debug_code aborted = text "Aborted"
debug_code internal = text "Internal"
debug_code unavailable = text "Unavailable"
debug_code cancelled = text "Cancelled"
debug_code deadline_exceeded = text "DeadlineExceeded"
debug_code resource_exhausted = text "ResourceExhausted"
debug_code (other n) = display n

pub node_error : Text → Status → Status
node_error address s =
    if is_named s.message
    then status s.code (s.message ++ (text " (shard " ++ (address ++ text ")")))
    else unavailable_status node_unreachable (
        text "node "
        ++ (address
            ++ (text " did not answer: "
                ++ (s.message ++ (text " (" ++ (debug_code s.code ++ text ")"))))))

unfoldable pub shard_ref : Text → Text → ShardRef
shard_ref address index_id = record { address = address; index_id = index_id }
