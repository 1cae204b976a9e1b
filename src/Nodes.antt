-- ===== src/Nodes.antt =====
-- coordinator/nodes.rs: one shard of the node table, and its constructors.
pub mod Parse
pub mod WellFormed
pub mod Comments
pub mod State
pub mod Durable
use turbovec_grpc.Prelude.{
  List, Option, Text, [], arith, contains, if◌then◌else◌, ltb, none, refl, some, strip_prefix, text,
  true, ℕ, ◌++◌, ◌≡◌,
}

pub record ShardConfig : Type 0 where
  pub address : Text
  pub index_id : Option Text
  pub replicas : List Text
  pub required_generation : Option ℕ

pub record NodeTable : Type 0 where
  pub shards : List ShardConfig

-- `http://` goes before an address that names no scheme.
unfoldable pub with_scheme : Text → Text
with_scheme address = if contains (text "://") address then address else text "http://" ++ address

-- `ShardConfig::new`
unfoldable pub new_shard : Text → ShardConfig
new_shard address = record {
  address = with_scheme address;
  index_id = none;
  replicas = [];
  required_generation = none;
}

unfoldable pub with_index : Text → Text → ShardConfig
with_index address index_id = record {
  address = with_scheme address;
  index_id = some index_id;
  replicas = [];
  required_generation = none;
}

-- `generation.filter(|value| *value > 0)`
abbrev pub positive_only : Option ℕ → Option ℕ
positive_only none = none
positive_only (some n) = if ltb 0 n then some n else none

unfoldable pub with_index_generation : Text → Text → Option ℕ → ShardConfig
unfolding with_index
with_index_generation address index_id generation = record (with_index address index_id) {
  required_generation = positive_only generation;
}

-- An address that names a scheme.
abbrev pub HasScheme : Text → Type 0
HasScheme address = contains (text "://") address ≡ true

default_scheme : (address : Text) → HasScheme (text "http://" ++ address)
unfolding text contains strip_prefix
default_scheme address = refl

pub with_scheme-HasScheme : (address : Text) → HasScheme (with_scheme address)
unfolding with_scheme
with_scheme-HasScheme address = ground (arith, default_scheme address)
