-- ===== src/Tests.antt =====
-- The code run on small inputs: the theorems at concrete arguments.
mod Codec
mod Queries
mod Topologies
mod Nodes
mod Moves
mod Candidates
