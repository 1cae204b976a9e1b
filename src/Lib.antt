-- ===== src/Lib.antt =====
-- A verification library for turbovec-grpc, a gRPC server for vector indexes (the node) and the
-- coordinator that serves one collection from many nodes.
--
-- The parts and how they interact. A node (src/service.rs) keeps its indexes in a registry
-- (src/store.rs) that persists them as numbered generations behind a CURRENT pointer; rows come
-- in through `add`, and move between nodes through `export_rows` and `import_rows`. The
-- coordinator (src/coordinator/mod.rs) has a node table (src/coordinator/nodes.rs) with a
-- generation, probes the nodes, binds them into a collection when they agree, and answers a
-- query from streaming scans of all shards, to which it publishes a rising floor. Both sides
-- report refusals by the names of src/errors.rs.
--
-- The files:
--   Prelude: what all share: native naturals, lists over them, Boolean tests, and text as the
--     list of its code points.
--   Float: f32 as a bit pattern, with its IEEE comparisons and total order.
--   Order, TopK (Bounded, Offers, Spec): orderings, the bounded heap as an ordered list, and
--     the specification `IsTopK` of a best-k answer.
--   Status: errors.rs, and results that return, fail or panic. Fallible: the text errors of
--     startup and persistence code, and `str::parse::<u64>`.
--   Wire: the messages of proto/turbovec/v1 that the modelled code reads and builds.
--   Coordinator: `Probe`, `Pinned`, `node_error`. Coordinator.Collector: `stream_query`, with
--     Ranking, Rows, Invariant and Completion for the lemmas and Exact for the theorems.
--     Coordinator.Bind: `bind`. Coordinator.Counts: `plan_counts`. Coordinator.Probing: `probe`,
--     `probe_for_search`, `probe_all`, `resolve`, `configs_for_topology`. Coordinator.Topology:
--     `rebind_inner`, `register_node` and `collection` over the service's state, with Rebinding,
--     Spares and Bindings for the theorems. Coordinator.Moves: `import_ranges`, `stage_split`,
--     `split`, `join`, with Staging (the frames a target is sent), Partition and Progress (a
--     split), Gathering and Union (a join), Publishing (the topology they leave).
--     Coordinator.Candidates: the loop of `run_candidate_stream`, with Bytes, Received,
--     Delivery, Turns and Ending for the proofs, and Opening for what comes before the loop.
--     Coordinator.Autoscaler: `autoscale_tick` and `drop_staged` of src/coordinator/autoscale.rs,
--     with Ticks and Unsynced. Coordinator.Listing: `list_nodes`. Coordinator.Searching: `search`,
--     with Pools, Joins and Ends.
--   Nodes: nodes.rs: `ShardConfig`, `NodeTable`. Nodes.Parse: `NodeTable::parse`. Nodes.State:
--     `persist_topology`, `load_or_initialize`. Nodes.WellFormed, Nodes.Comments,
--     Nodes.Durable: theorems.
--   Service.Calibration: `calibration_difference`. Service.Export: `export_range`,
--     `export_block`, `export_rows`. Service.Import: `ImportBuilder`, `import_rows`.
--     Service.Slices, Service.Ranges, Service.Blocks (single blocks), Service.Feeding (the
--     frames of a range of rows, fed to a builder), Service.Transfer: the round trip of the two. Service.Ingest: `add`,
--     `add_chunk`, with Staging and Replay for the theorem on a retry. Service.Bitmaps:
--     `validate_label_bitmaps` and `label_in_bitmaps`, with Members.
--   Store: `Index`, the manifest. Store.Registry: the maps of `IndexStore`. Store.Generations:
--     `persist` and `restore_all`, with Outcome, Restart, Recovery, Reopening, Stuck and
--     Success for the theorems.
--   Tests: the definitions and theorems at concrete inputs.
--
-- How the code is modelled. Shared state is a record that a call takes and returns; a call that
-- holds a lock is one step. A stream of requests or of shard events is the list of its messages,
-- in any order; an end of the list is a closed stream. `?` and early returns are do blocks over
-- `Result` and `Fallible`; `expect` and an index out of range are `panic`. The heap of a query
-- is an ordered list, which is what a binary heap and a sort promise of their order. Integers
-- keep their 64-bit bound where the source checks it, and wrap around where it does not, as a
-- release build does. The loop of an export runs on fuel, the number of rows left, and each turn
-- sends at least one row, so the fuel suffices. A refusal keeps its status and its named reason;
-- the text of its message is kept in its leading words, and what it says of file paths, floats,
-- limits and causes behind them is left out in places. The candidate loop takes a list of the
-- events that its `select!` takes; a caller that goes away during a send is the event that it
-- has gone. The completion of a candidate stream has no field for the quality contract, which is
-- a constant. A tick of the autoscaler reads the service in one state and publishes in another,
-- so that other calls may come in between; split and join are taken as one call each. The tasks
-- of a search end in an order that a parameter chooses, and each turn of its loop joins one
-- task, so one turn more than the number of queries is fuel enough; fuel that runs out is a
-- panic.
--
-- Parameters, since their code is elsewhere: the file system, as the stages at which it fails;
-- the JSON of the topology file; the network and what the nodes answer (`Cluster`, `Network`,
-- `Fleet`, `Outside`, and `Serves` and `IsWilling` for nodes that run the code of
-- src/service.rs); the scoring fingerprint, a digest, and random request ids (`Outside`); the
-- vector library's adding of rows (`Library`), its `from_parts` and the layout of its index
-- (`IsLaidOut`).
--
-- Not modelled: fit_calibration, which fits a pair in the coordinator and sends it to the nodes;
-- a node's own scans, its filters but for the label bitmaps, and its index administration;
-- checksums and file encodings of a generation; configuration, metrics, the two binaries and the
-- benchmark under examples.
pub mod Prelude
pub mod Float
pub mod Status
pub mod Order
pub mod TopK
pub mod Wire
pub mod Coordinator
pub mod Fallible
pub mod Nodes
pub mod Service
pub mod Store
pub mod Tests
