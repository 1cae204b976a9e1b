-- ===== src/Coordinator/Autoscaler/Unsynced.antt =====
-- coordinator/autoscale.rs: a tick whose topology file was written but not synced.
use turbovec_grpc.Prelude.{List, Option, Text, none, some, ◌+◌, ◌≡◌}
use turbovec_grpc.Fallible.{Fallible}
use turbovec_grpc.Status.{Status}
use turbovec_grpc.Nodes.{ShardConfig}
use turbovec_grpc.Nodes.State.{
  Host, create_directory, create_temp, rename_temp, sync_directory, sync_temp, write_temp,
}
use turbovec_grpc.Nodes.Durable.{written}
use turbovec_grpc.Coordinator.Topology.{Service, surviving}

-- The sync of the directory fails, and no other step of the file system.
pub record IsUnsynced (host : Host) (problem : Text) : Type 0 where
  pub sync_fails : host.fault sync_directory ≡ some problem
  pub creates_directory : host.fault create_directory ≡ none
  pub creates : host.fault create_temp ≡ none
  pub writes : host.fault write_temp ≡ none
  pub syncs : host.fault sync_temp ≡ none
  pub renames : host.fault rename_temp ≡ none

-- What the state file holds once the table has been written.
abbrev pub written_bytes : Host → List ShardConfig → Service → Option Text
written_bytes host shards s =
    some (host.encode (written host (s.generation + 1) shards (surviving shards s.spares)))
