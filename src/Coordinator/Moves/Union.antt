-- ===== src/Coordinator/Moves/Union.antt =====
-- coordinator/mod.rs: what the target of a join holds in the end.
use turbovec_grpc.Prelude.{
  All, List, Text, [], ap, arith, inl, is_empty, map, refl, subst, sym, u64_mod, ℕ, ◌%◌, ◌+◌, ◌<◌,
  ◌∙◌, ◌∷◌, ◌≡◌,
}
use turbovec_grpc.Float.{F32}
use turbovec_grpc.Status.{>>=-eq-ok, ok, ok-injective, refuse_if-eq-ok}
use turbovec_grpc.Wire.{ShardRef}
use turbovec_grpc.Nodes.{ShardConfig, new_shard}
use turbovec_grpc.Service.Import.{import_parts, import_start, new_builder}
use turbovec_grpc.Service.Transfer.{finish_full, parts_like, parts_like-eq}
use turbovec_grpc.Coordinator.{Pinned, Probe, shard_ref}
use turbovec_grpc.Coordinator.Bind.{IsComparable, bind, bind_iff, total_rows}
use turbovec_grpc.Coordinator.Moves.{
  Fleet, import_ranges, join_plan, join_probes, produce, stage_join,
}
use turbovec_grpc.Coordinator.Moves.Staging.{Landed, Serves, Stored}
use turbovec_grpc.Coordinator.Moves.Partition.{import_ranges-ok}
use turbovec_grpc.Coordinator.Moves.Gathering.{
  ServesEach, all_codes, all_names, all_rows_of, all_scales, cons-ne-nil, head_block, join_frames,
  shape_of,
}

module _ (fleet : Fleet) where
  total_rows-sum :
      (all_stored : List Stored) (probes : List Probe) (rows : ℕ)
      → ServesEach fleet all_stored probes
      → rows + all_rows_of all_stored < u64_mod
      → total_rows probes rows ≡ rows + all_rows_of all_stored
  total_rows-sum [] [] rows each h = omega arith
  total_rows-sum [] (p ∷ probes) rows each h = absurd each
  total_rows-sum (stored ∷ rest) [] rows each h = absurd each
  total_rows-sum (stored ∷ rest) (p ∷ probes) rows (serves, each) h = omega (
    arith,
    serves.len_told,
    total_rows-sum rest probes ((rows + p.info.len) % u64_mod) each
        (omega (arith, h, serves.len_told)),
  )

  shape-eq :
      {dim dim' bits bits' : ℕ} {shift shift' scale scale' : List F32}
      → dim ≡ dim'
      → bits ≡ bits'
      → shift ≡ shift'
      → scale ≡ scale'
      → head_block dim bits shift scale ≡ head_block dim' bits' shift' scale'
  shape-eq e f g h = rw (e, f, g, h) refl

  -- Shards that are comparable serve indexes of one shape.
  comparable-shape_of :
      (first : Stored) (head : Probe) (all_stored : List Stored) (probes : List Probe)
      → Serves fleet first head
      → ServesEach fleet all_stored probes
      → All (IsComparable head) probes
      → All (λ stored. shape_of stored ≡ shape_of first) all_stored
  comparable-shape_of first head [] [] served each comparable = tt
  comparable-shape_of first head [] (p ∷ probes) served each comparable = absurd each
  comparable-shape_of first head (stored ∷ rest) [] served each comparable = absurd each
  comparable-shape_of first head (stored ∷ rest) (p ∷ probes) served (serves, each)
        (c, comparable) =
      (
        shape-eq (omega (arith, serves.dim_told, served.dim_told, c.same_dim))
            (omega (arith, serves.bit_width_told, served.bit_width_told, c.same_bit_width))
            (sym serves.shift_told ∙ sym c.same_shift ∙ served.shift_told)
            (sym serves.scale_told ∙ sym c.same_scale ∙ served.scale_told),
        comparable-shape_of first head rest probes served each comparable,
      )

  stage_join-ok :
      (sources : List ShardConfig) (target : Text) (generation : ℕ) (probes : List Probe)
      (pinned : Pinned) (shard : ShardRef)
      → join_probes fleet sources ≡ ok probes
      → stage_join fleet sources target generation ≡ ok (pinned, shard)
      → (bind generation probes ≡ ok pinned)
        × (fleet.import_rows shard.address
              (import_start pinned.rows ∷ (produce fleet (map join_plan probes)).0)
            ≡ ok shard.index_id)
  unfolding stage_join shard_ref
  stage_join-ok sources target generation probes pinned shard found h =
      let (_, h₁) = refuse_if-eq-ok (is_empty sources) _ _ h in
      let (_, h₂) = refuse_if-eq-ok (is_empty target) _ _ h₁ in
      let (ps, found', h₃) = >>=-eq-ok (join_probes fleet sources) _ h₂ in
      let same : ps ≡ probes = ok-injective (sym found' ∙ found) in
      let (bound, binds, h₄) = >>=-eq-ok (bind generation ps) _ h₃ in
      let address : Text = (new_shard target).address in
      let (id, imported, h₅) =
        >>=-eq-ok (import_ranges fleet address bound.rows (map join_plan ps)) _ h₄ in
      let result : (bound, shard_ref address id) ≡ (pinned, shard) = ok-injective h₅ in
      let (accepted, _) =
        import_ranges-ok fleet address bound.rows (map join_plan ps) id imported in
      subst
        (λ r.
          (bind generation probes ≡ ok r.0)
          × (fleet.import_rows r.1.address
                (import_start r.0.rows ∷ (produce fleet (map join_plan probes)).0)
              ≡ ok r.1.index_id))
        result
        (
          subst (λ qs. bind generation qs ≡ ok bound) same binds,
          subst
              (λ qs.
                fleet.import_rows address
                  (import_start bound.rows ∷ (produce fleet (map join_plan qs)).0)
                ≡ ok id)
              same accepted,
        )

  -- A join that returns has sent its target every row of every source, once and in order: the
  -- shard is made of the sources' codes, scales and labels put together.
  pub stage_join-Landed :
      (sources : List ShardConfig) (target : Text) (generation : ℕ) (probes : List Probe)
      (first : Stored) (rest : List Stored) (pinned : Pinned) (shard : ShardRef)
      → join_probes fleet sources ≡ ok probes
      → ServesEach fleet (first ∷ rest) probes
      → all_rows_of (first ∷ rest) < u64_mod
      → stage_join fleet sources target generation ≡ ok (pinned, shard)
      → Landed fleet shard (
          parts_like
            (shape_of first)
            (all_rows_of (first ∷ rest))
            (all_codes (first ∷ rest))
            (all_scales (first ∷ rest))
            (all_names (first ∷ rest)))
  unfolding import_parts new_builder
  stage_join-Landed sources target generation [] first rest pinned shard found each small h =
      absurd each
  stage_join-Landed sources target generation (head ∷ probes) first rest pinned shard found each
        small h =
      let (binds, accepted) =
        stage_join-ok sources target generation (head ∷ probes) pinned shard found h in
      let (comparable, bound) = (bind_iff generation head probes pinned).0 binds in
      let rows : pinned.rows ≡ all_rows_of (first ∷ rest) = omega (
        arith,
        ap (λ p. p.rows) bound,
        total_rows-sum (first ∷ rest) (head ∷ probes) 0 each (omega (arith, small)),
      ) in
      let (s, pushed, _, headed, expects, counted, codes, scales, labels) =
        join_frames fleet (shape_of first) (first ∷ rest) (head ∷ probes) (new_builder pinned.rows)
          each
          (comparable-shape_of first head (first ∷ rest) (head ∷ probes) each.0 each comparable)
          (inl refl) (λ e. absurd (cons-ne-nil e)) (omega (arith, rows))
          (omega (arith, rows, small)) in
      let filled : s.rows ≡ s.expected_rows = omega (arith, counted, expects, rows) in
      record {
        frames = import_start pinned.rows ∷ (produce fleet (map join_plan (head ∷ probes))).0;
        accepted = accepted;
        made = rw (pushed) (
            finish_full s (shape_of first) headed filled
            ∙ ap ok (parts_like-eq (shape_of first) (omega (arith, counted)) codes scales labels));
      }
