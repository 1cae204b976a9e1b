-- ===== src/Coordinator/Bind.antt =====
-- coordinator/mod.rs: `bind`, which holds every shard to one shape and one calibration pair, and
-- the other checks on a probed shard.
use turbovec_grpc.Prelude.{
  All, Bool, List, Option, Option-cases, Text, [], all, arith, display, false, inl, inr, none, not,
  refl, some, sym, text, true, u64_mod, ℕ, ◌%◌, ◌++◌, ◌+◌, ◌==◌, ◌↔◌, ◌∙◌, ◌∷◌, ◌≡◌,
}
use turbovec_grpc.Float.{F32}
use turbovec_grpc.Status.{
  >>=-eq-ok, Result, bit_width_mismatch, dimension_mismatch, empty_collection, err, err-ne-ok,
  failed_precondition, mixed_calibration, ok, ok-injective, positional_index_required, precondition,
  refuse_if, refuse_if-eq-ok, status, ◌>>=◌, ◌>>◌,
}
use turbovec_grpc.Wire.{IndexKind, id_map, positional, unspecified}
use turbovec_grpc.Nodes.{ShardConfig}
use turbovec_grpc.Service.Calibration.{calibration_difference, calibration_difference_iff}
use turbovec_grpc.Coordinator.{Pinned, Probe}
use turbovec_grpc.Coordinator.Counts.{sum}

abbrev pub pair_of : Probe → List F32 × List F32
pair_of p = (p.calibration.tqplus_shift, p.calibration.tqplus_scale)

-- What each of two shards has.
abbrev disagree : Probe → Text → Probe → Text → Text
disagree head mine shard theirs =
    text "shard " ++ (head.address ++ (mine ++ (text " and shard " ++ (shard.address ++ theirs))))

abbrev holds_dim : ℕ → Text
holds_dim dim = text " holds dim " ++ display dim

abbrev is_bits : ℕ → Text
is_bits bit_width = text " is " ++ (display bit_width ++ text "-bit")

unfoldable pub refuse_difference : Probe → Probe → Option Text → Result (Unit {0})
refuse_difference head shard none = ok tt
refuse_difference head shard (some detail) = err (
    precondition mixed_calibration (
      text "shard "
      ++ (head.address
          ++ (text " and shard "
              ++ (shard.address
                  ++ (text
                        " are calibrated differently, so their scores are not on one scale and merging them would rank nothing: "
                      ++ detail))))))

-- The loop over the shards; `rows += shard.info.len` in a release build.
unfoldable pub bind_rows : Probe → List Probe → ℕ → Result ℕ
bind_rows head [] rows = ok rows
bind_rows head (shard ∷ shards) rows = do
  refuse_if (not (shard.info.dim == head.info.dim)) (
      precondition dimension_mismatch
        (disagree head (holds_dim head.info.dim) shard (holds_dim shard.info.dim)))
  refuse_if (not (shard.info.bit_width == head.info.bit_width)) (
      precondition bit_width_mismatch
        (disagree head (is_bits head.info.bit_width) shard (is_bits shard.info.bit_width)))
  refuse_difference head shard (calibration_difference (pair_of head) (pair_of shard))
  bind_rows head shards ((rows + shard.info.len) % u64_mod)

unfoldable pub bind : ℕ → List Probe → Result Pinned
bind generation [] = err (
    precondition empty_collection
      (text "no shards are configured, so there is no collection to serve"))
bind generation (head ∷ shards) = do
  rows ← bind_rows head (head ∷ shards) 0
  ok (record {
    generation = generation;
    shards = head ∷ shards;
    dim = head.info.dim;
    rows = rows;
    calibration = head.calibration;
  })

unfoldable pub is_positional : IndexKind → Bool
is_positional positional = true
is_positional id_map = false
is_positional unspecified = false

unfoldable pub require_positional : Probe → Text → Result (Unit {0})
require_positional probe what = refuse_if (not (is_positional probe.info.kind)) (
    precondition positional_index_required (
      what
      ++ (text " moves rows as encoded codes, which turbovec's IdMapIndex does not expose; shard "
          ++ (probe.address ++ (text " index " ++ (probe.index_id ++ text " is id-mapped"))))))

unfoldable pub generation_required : Option ℕ → Probe → Result (Unit {0})
generation_required none probe = ok tt
generation_required (some required) probe = refuse_if (not (probe.info.generation == required)) (
    status failed_precondition (
      text "shard_generation_mismatch: "
      ++ (probe.address
          ++ (text " serves generation "
              ++ (display probe.info.generation
                  ++ (text ", topology requires " ++ display required))))))

unfoldable pub validate_required_generation : ShardConfig → Probe → Result (Unit {0})
unfolding generation_required
validate_required_generation config probe = generation_required config.required_generation probe

-- Two shards score on one scale: the same shape and, bit for bit, the same calibration pair.
pub record IsComparable (a b : Probe) : Type 0 where
  pub same_dim : b.info.dim ≡ a.info.dim
  pub same_bit_width : b.info.bit_width ≡ a.info.bit_width
  pub same_shift : a.calibration.tqplus_shift ≡ b.calibration.tqplus_shift
  pub same_scale : a.calibration.tqplus_scale ≡ b.calibration.tqplus_scale

-- The rows of the shards, added one by one.
abbrev pub total_rows : List Probe → ℕ → ℕ
total_rows [] rows = rows
total_rows (p ∷ ps) rows = total_rows ps ((rows + p.info.len) % u64_mod)

refuse_difference-ok :
    (head shard : Probe) (u : Unit {0})
    → refuse_difference head shard (calibration_difference (pair_of head) (pair_of shard)) ≡ ok u
    → (head.calibration.tqplus_shift ≡ shard.calibration.tqplus_shift)
      × (head.calibration.tqplus_scale ≡ shard.calibration.tqplus_scale)
unfolding refuse_difference
refuse_difference-ok head shard u h =
    (calibration_difference_iff _ _ _ _).0
      (elim (Option-cases (calibration_difference (pair_of head) (pair_of shard))) [
        | inl e ↦ e
        | inr (d, e) ↦ absurd (err-ne-ok (rw (e, refuse_difference) at h))
      ])

bind_rows-ok :
    (head : Probe) (shards : List Probe) (rows total : ℕ)
    → bind_rows head shards rows ≡ ok total
    → (total ≡ total_rows shards rows) × All (IsComparable head) shards
unfolding bind_rows
bind_rows-ok head [] rows total h = (sym (ok-injective h), tt)
bind_rows-ok head (shard ∷ shards) rows total h =
    let (d, h₁) = refuse_if-eq-ok (not (shard.info.dim == head.info.dim)) _ _ h in
    let (w, h₂) = refuse_if-eq-ok (not (shard.info.bit_width == head.info.bit_width)) _ _ h₁ in
    let (u, c, h₃) =
      >>=-eq-ok
        (refuse_difference head shard (calibration_difference (pair_of head) (pair_of shard))) _
        h₂ in
    let (e, rest) = bind_rows-ok head shards _ total h₃ in
    let (s, t) = refuse_difference-ok head shard u c in
    (
      e,
      (
        record {
          same_dim = ground arith;
          same_bit_width = ground arith;
          same_shift = s;
          same_scale = t;
        },
        rest,
      ),
    )

bind_rows-total :
    (head : Probe) (shards : List Probe) (rows : ℕ)
    → All (IsComparable head) shards
    → bind_rows head shards rows ≡ ok (total_rows shards rows)
unfolding bind_rows refuse_difference
bind_rows-total head [] rows h = refl
bind_rows-total head (shard ∷ shards) rows h =
    let same : calibration_difference (pair_of head) (pair_of shard) ≡ none =
      (calibration_difference_iff _ _ _ _).1 (h.0.same_shift, h.0.same_scale) in
    ground (
      arith,
      same,
      h.0.same_dim,
      h.0.same_bit_width,
      bind_rows-total head shards ((rows + shard.info.len) % u64_mod) h.1,
    )

-- The binding of shards that agree.
abbrev pub bound_at : ℕ → Probe → List Probe → Pinned
bound_at generation head shards = record {
  generation = generation;
  shards = head ∷ shards;
  dim = head.info.dim;
  rows = total_rows (head ∷ shards) 0;
  calibration = head.calibration;
}

-- A collection binds exactly when it has a shard and every shard is comparable with the first;
-- it then serves those shards, in order, with their rows added up.
pub bind_iff :
    (generation : ℕ) (head : Probe) (shards : List Probe) (pinned : Pinned)
    → (bind generation (head ∷ shards) ≡ ok pinned)
      ↔ (All (IsComparable head) (head ∷ shards) × (pinned ≡ bound_at generation head shards))
unfolding bind
bind_iff generation head shards pinned = (to, from)
  where
    to :
        bind generation (head ∷ shards) ≡ ok pinned
        → All (IsComparable head) (head ∷ shards) × (pinned ≡ bound_at generation head shards)
    to h =
        let (rows, e, h₁) = >>=-eq-ok (bind_rows head (head ∷ shards) 0) _ h in
        let (sum, all) = bind_rows-ok head (head ∷ shards) 0 rows e in
        (all, sym (ok-injective h₁) ∙ rw sum)

    from :
        All (IsComparable head) (head ∷ shards) × (pinned ≡ bound_at generation head shards)
        → bind generation (head ∷ shards) ≡ ok pinned
    from (all, e) = rw (bind_rows-total head (head ∷ shards) 0 all, e)
