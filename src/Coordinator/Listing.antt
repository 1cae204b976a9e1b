-- ===== src/Coordinator/Listing.antt =====
-- coordinator/mod.rs: `list_nodes`, which tells of each shard and whether the collection can serve.
use turbovec_grpc.Prelude.{
  Bool, List, Option, Text, [], all, ap, arith, display, false, if◌then◌else◌, inl, inr, is_empty,
  length, map, none, not, refl, some, suc, sym, text, true, ℕ, ◌++◌, ◌-◌, ◌<◌, ◌==◌, ◌↔◌, ◌∙◌, ◌∷◌,
  ◌≡◌, ◌≢◌, ◌≤◌, ◌⊎◌,
}
use turbovec_grpc.Status.{
  >>=-eq-ok, Result, Status, err, err-ne-ok, map_err, node_unreachable, ok, ok-injective, panic,
  panic-ne-ok, refuse_if, ◌>>=◌, ◌>>◌,
}
use turbovec_grpc.Wire.{Calibration, IndexInfo, ShardRef}
use turbovec_grpc.Nodes.{ShardConfig}
use turbovec_grpc.Coordinator.{Pinned, Probe, node_error, shard_ref}
use turbovec_grpc.Coordinator.Bind.{bind}
use turbovec_grpc.Coordinator.Probing.{Cluster, probe, probe_all}
use turbovec_grpc.Coordinator.Topology.{Service, all_probes, build_binding}

pub record ShardStatus : Type 0 where
  pub shard : ShardRef
  pub info : Option IndexInfo
  pub calibration : Option Calibration
  pub error_text : Text

pub record SpareNodeStatus : Type 0 where
  pub address : Text
  pub indexes : ℕ
  pub error_text : Text

pub record ListNodesResponse : Type 0 where
  pub shards : List ShardStatus
  pub servable : Bool
  pub error_text : Text
  pub rows : ℕ
  pub topology_generation : ℕ
  pub spares : List SpareNodeStatus

abbrev or_empty : Option Text → Text
or_empty none = []
or_empty (some t) = t

abbrev failed_shard : ShardConfig → Text → ShardStatus
failed_shard shard why = record {
  shard = record { address = shard.address; index_id = or_empty shard.index_id };
  info = none;
  calibration = none;
  error_text = why;
}

unfoldable pub shard_status : ShardConfig → Result Probe → ShardStatus
shard_status shard (ok probe) = record {
  shard = shard_ref probe.address probe.index_id;
  info = some probe.info;
  calibration = some probe.calibration;
  error_text = [];
}
shard_status shard (err e) = failed_shard shard e.message
shard_status shard panic = failed_shard shard (text "probe task failed")

-- `table.iter().zip(probes)`
unfoldable pub shard_statuses : List ShardConfig → List (Result Probe) → List ShardStatus
unfolding shard_status
shard_statuses [] probes = []
shard_statuses (shard ∷ table) [] = []
shard_statuses (shard ∷ table) (probe ∷ probes) =
    shard_status shard probe ∷ shard_statuses table probes

unfoldable pub healthy : List (Result Probe) → List Probe
healthy [] = []
healthy (ok probe ∷ probes) = probe ∷ healthy probes
healthy (err e ∷ probes) = healthy probes
healthy (panic ∷ probes) = healthy probes

abbrev verdict_of : Result Pinned → Bool × (Text × ℕ)
verdict_of (ok pinned) = (true, ([], pinned.rows))
verdict_of (err e) = (false, (e.message, 0))
verdict_of panic = (false, ([], 0))

-- Whether the collection can serve, why not, and its rows.
unfoldable pub verdict : ℕ → List ShardConfig → List Probe → Bool × (Text × ℕ)
verdict generation table answered =
    if not (length answered == length table)
    then (
      false,
      (
        node_unreachable
            ++ (text ": "
                ++ (display (length table - length answered)
                    ++ (text " of " ++ (display (length table) ++ text " shards did not answer")))),
        0,
      ),
    )
    else verdict_of (bind generation answered)

abbrev spare_status : Text → Result (List IndexInfo) → SpareNodeStatus
spare_status address (ok listed) = record {
  address = address;
  indexes = length listed;
  error_text = [];
}
spare_status address (err e) = record { address = address; indexes = 0; error_text = e.message }
spare_status address panic = record { address = address; indexes = 0; error_text = [] }

unfoldable pub probe_spare : Cluster → Text → SpareNodeStatus
probe_spare cluster address =
    spare_status address
      (do cluster.dial address; map_err (node_error address) (cluster.list_indexes address))

unfoldable pub list_nodes : Cluster → Service → ListNodesResponse
unfolding shard_statuses healthy verdict probe_spare
list_nodes cluster s =
    let probes = probe_all cluster s.shards in
    let told = verdict s.generation s.shards (healthy probes) in
    record {
      shards = shard_statuses s.shards probes;
      servable = told.0;
      error_text = told.1.0;
      rows = told.1.1;
      topology_generation = s.generation;
      spares = map (probe_spare cluster) s.spares;
    }

length-probe_all :
    (cluster : Cluster) (table : List ShardConfig) → length (probe_all cluster table) ≡ length table
unfolding probe_all
length-probe_all cluster [] = refl
length-probe_all cluster (shard ∷ table) = ap suc (length-probe_all cluster table)

length-healthy : (probes : List (Result Probe)) → length (healthy probes) ≤ length probes
unfolding healthy
length-healthy [] = omega arith
length-healthy (ok p ∷ probes) = omega (arith, length-healthy probes)
length-healthy (err e ∷ probes) = omega (arith, length-healthy probes)
length-healthy (panic ∷ probes) = omega (arith, length-healthy probes)

-- All probes answered, or fewer are healthy.
healthy-all_probes :
    (probes : List (Result Probe))
    → ((all_probes probes ≡ ok (healthy probes)) × (length (healthy probes) ≡ length probes))
      ⊎ ((length (healthy probes) < length probes)
          × ((ps : List Probe) → all_probes probes ≢ ok ps))
unfolding healthy all_probes
healthy-all_probes [] = inl (refl, refl)
healthy-all_probes (err e ∷ probes) =
    inr (omega (arith, length-healthy probes), λ ps h. err-ne-ok h)
healthy-all_probes (panic ∷ probes) =
    inr (omega (arith, length-healthy probes), λ ps h. panic-ne-ok h)
healthy-all_probes (ok p ∷ probes) = elim (healthy-all_probes probes) [
  | inl (e, l) ↦ inl (rw (e) refl, omega arith)
  | inr (fewer, failed) ↦
      inr
        (omega arith, λ ps h. let (rest, e, _) = >>=-eq-ok (all_probes probes) _ h in failed rest e)
]

-- The verdict of a list of probes says what binding them gives.
abbrev SaysSo : Bool × (Text × ℕ) → Result Pinned → ℕ → Type 0
SaysSo told bound rows =
    ((told.0 ≡ true) × (told.1.1 ≡ rows))
    ↔ ((pinned : Pinned) × (bound ≡ ok pinned) × (pinned.rows ≡ rows))

neither :
    (told : Bool × (Text × ℕ)) (bound : Result Pinned) (rows : ℕ)
    → told.0 ≡ false
    → ((pinned : Pinned) → bound ≢ ok pinned)
    → SaysSo told bound rows
neither told bound rows denied failed = (
  λ (claimed, _). absurd (bool_clash (sym denied ∙ claimed)),
  λ (pinned, h, _). absurd (failed pinned h),
)
  where
    bool_clash : false ≡ true → ⊥
    bool_clash h = cc

verdict_of-SaysSo : (r : Result Pinned) (rows : ℕ) → SaysSo (verdict_of r) r rows
verdict_of-SaysSo (ok pinned) rows =
    (λ (_, e). (pinned, refl, e), λ (p, h, e). (refl, ap (λ q. q.rows) (ok-injective h) ∙ e))
verdict_of-SaysSo (err e) rows = neither (verdict_of (err e)) (err e) rows refl (λ p h. err-ne-ok h)
verdict_of-SaysSo panic rows = neither (verdict_of panic) panic rows refl (λ p h. panic-ne-ok h)

verdict-SaysSo :
    (generation : ℕ) (table : List ShardConfig) (probes : List (Result Probe)) (e : Status)
    (rows : ℕ)
    → length probes ≡ length table
    → SaysSo
        (verdict generation table (healthy probes))
        (refuse_if (is_empty table) e >> (all_probes probes >>= bind generation))
        rows
unfolding verdict bind healthy
verdict-SaysSo generation [] [] e rows l =
    neither (verdict generation [] []) (err e) rows refl (λ p h. err-ne-ok h)
verdict-SaysSo generation [] (probe ∷ probes) e rows l = absurd (omega arith)
verdict-SaysSo generation (shard ∷ table) probes e rows l = elim (healthy-all_probes probes) [
  | inl (all, same) ↦
      let equal : (length (healthy probes) == suc (length table)) ≡ true = ground arith in
      rw (all, equal) (verdict_of-SaysSo (bind generation (healthy probes)) rows)
  | inr (fewer, failed) ↦
      let unequal : (length (healthy probes) == suc (length table)) ≡ false = ground arith in
      neither (verdict generation (shard ∷ table) (healthy probes)) _ rows (rw (unequal) refl)
        (λ p h. let (ps, h₁, _) = >>=-eq-ok (all_probes probes) _ h in failed ps h₁)
]

-- `list_nodes` calls the collection servable, with so many rows, exactly when a binding of the
-- same topology can be built now, and it has that many rows.
pub list_nodes-build_binding :
    (cluster : Cluster) (s : Service) (rows : ℕ)
    → (((list_nodes cluster s).servable ≡ true) × ((list_nodes cluster s).rows ≡ rows)) ↔ (
        (pinned : Pinned) × (build_binding cluster s.generation s.shards ≡ ok pinned)
        × (pinned.rows ≡ rows))
unfolding list_nodes build_binding
list_nodes-build_binding cluster s rows =
    verdict-SaysSo s.generation s.shards (probe_all cluster s.shards) _ rows
      (length-probe_all cluster s.shards)
