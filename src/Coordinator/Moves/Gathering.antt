-- ===== src/Coordinator/Moves/Gathering.antt =====
-- coordinator/mod.rs: the frames of a join, fed to the builder of its target.
use turbovec_grpc.Prelude.{
  All, List, [], ap, append-nil, append_assoc, arith, inr, map, none, refl, some, subst, sym,
  u64_mod, ℕ, ◌*◌, ◌++◌, ◌+◌, ◌<◌, ◌∙◌, ◌∷◌, ◌≡◌, ◌≤◌, ◌⊎◌,
}
use turbovec_grpc.Float.{F32}
use turbovec_grpc.Status.{ok}
use turbovec_grpc.Wire.{RowBlock}
use turbovec_grpc.Service.Import.{ImportBuilder, push_frames}
use turbovec_grpc.Service.Blocks.{names_of, row_bytes, shape}
use turbovec_grpc.Service.Transfer.{range_all}
use turbovec_grpc.Coordinator.{Probe}
use turbovec_grpc.Coordinator.Probing.{probe}
use turbovec_grpc.Coordinator.Moves.{Fleet, join_plan, produce}
use turbovec_grpc.Coordinator.Moves.Staging.{Serves, Stored, plan_at, produce-Fed}

-- Each probed shard's node holds the index that stands at its place.
abbrev pub ServesEach : Fleet → List Stored → List Probe → Type 0
ServesEach fleet [] [] = Unit
ServesEach fleet (stored ∷ rest) (probe ∷ probes) =
    Serves fleet stored probe × ServesEach fleet rest probes
ServesEach fleet [] (probe ∷ probes) = ⊥
ServesEach fleet (stored ∷ rest) [] = ⊥

abbrev pub all_rows_of : List Stored → ℕ
all_rows_of [] = 0
all_rows_of (stored ∷ rest) = stored.index.len + all_rows_of rest

abbrev pub all_codes : List Stored → List ℕ
all_codes [] = []
all_codes (stored ∷ rest) = stored.index.packed_codes ++ all_codes rest

abbrev pub all_scales : List Stored → List F32
all_scales [] = []
all_scales (stored ∷ rest) = stored.index.scales ++ all_scales rest

abbrev pub all_names : List Stored → List ℕ
all_names [] = []
all_names (stored ∷ rest) = names_of stored.index stored.labels ++ all_names rest

abbrev pub head_block : ℕ → ℕ → List F32 → List F32 → RowBlock
head_block dim bits shift scale = record {
  dim = dim;
  bit_width = bits;
  rows = 0;
  packed_codes = [];
  scales = [];
  tqplus_shift = shift;
  tqplus_scale = scale;
  labels = [];
}

-- The shape of a stored index, as the first block of a transfer leaves it.
abbrev pub shape_of : Stored → RowBlock
shape_of stored = shape stored.index stored.labels stored.dim

pub cons-ne-nil {ℓ} : {A : Type ℓ} {x : A} {xs : List A} → x ∷ xs ≡ [] → ⊥
cons-ne-nil e = cc

chained {ℓ} :
    {A : Type ℓ} (part part' rest ys zs ws : List A)
    → zs ≡ ys ++ part
    → part ≡ part'
    → ws ≡ zs ++ rest
    → ws ≡ ys ++ (part' ++ rest)
chained part part' rest ys zs ws e f g = rw (g, e, ← f) (append_assoc ys part rest)

module _ (fleet : Fleet) where
  -- The plans of a join bring a builder every row of every source.
  pub join_frames :
      (head : RowBlock) (all_stored : List Stored) (probes : List Probe) (s : ImportBuilder)
      → ServesEach fleet all_stored probes
      → All (λ stored. shape_of stored ≡ head) all_stored
      → (s.head ≡ none) ⊎ (s.head ≡ some head)
      → (all_stored ≡ [] → s.head ≡ some head)
      → s.rows + all_rows_of all_stored ≤ s.expected_rows
      → s.expected_rows < u64_mod
      → (s' : ImportBuilder) × (push_frames s (produce fleet (map join_plan probes)).0 ≡ ok s')
        × ((produce fleet (map join_plan probes)).1 ≡ ok tt)
        × (s'.head ≡ some head)
        × (s'.expected_rows ≡ s.expected_rows)
        × (s'.rows ≡ s.rows + all_rows_of all_stored)
        × (s'.packed ≡ s.packed ++ all_codes all_stored)
        × (s'.scales ≡ s.scales ++ all_scales all_stored)
        × (s'.labels ≡ s.labels ++ all_names all_stored)
  unfolding produce push_frames join_plan
  join_frames head [] [] s each same hd nz room small = (
    s,
    refl,
    refl,
    nz refl,
    refl,
    omega arith,
    sym (append-nil s.packed),
    sym (append-nil s.scales),
    sym (append-nil s.labels),
  )
  join_frames head [] (probe ∷ probes) s each same hd nz room small = absurd each
  join_frames head (stored ∷ rest) [] s each same hd nz room small = absurd each
  join_frames head (stored ∷ rest) (probe ∷ probes) s (serves, each) (e, same) hd nz room small =
      let len = stored.index.len in
      let w = row_bytes stored.index stored.dim in
      let (s₁, fed, pushed, ended) =
        produce-Fed fleet stored probe serves 0 len s (map join_plan probes) (omega arith) (record {
          matching = subst (λ h. (s.head ≡ none) ⊎ (s.head ≡ some h)) (sym e) hd;
          room = omega (arith, room);
          small = small;
        }) in
      let headed : s₁.head ≡ some head = fed.headed ∙ ap some e in
      let (s₂, more, well, headed₂, expects, counted, codes, scales, labels) =
        join_frames head rest probes s₁ each same (inr headed) (λ _. headed)
          (omega (arith, fed.counted, fed.expects, room)) (omega (arith, fed.expects, small)) in
      let planned : join_plan probe ≡ plan_at fleet stored probe serves 0 len =
        ap (λ n. record { source = probe; start_row = 0; count = n }) serves.len_told in
      (
        s₂,
        ap (λ plan. push_frames s (produce fleet (plan ∷ map join_plan probes)).0) planned
            ∙ pushed
            ∙ more,
        ap (λ plan. (produce fleet (plan ∷ map join_plan probes)).1) planned ∙ ended ∙ well,
        headed₂,
        expects ∙ fed.expects,
        omega (arith, counted, fed.counted),
        chained _ _ _ s.packed s₁.packed s₂.packed fed.codes
            (range_all (0 * w) (len * w) stored.index.packed_codes (omega arith)
              (omega (arith, serves.laid.codes_each)))
            codes,
        chained _ _ _ s.scales s₁.scales s₂.scales fed.scaled
            (range_all 0 len stored.index.scales refl (omega (arith, serves.laid.one_scale_each)))
            scales,
        chained _ _ _ s.labels s₁.labels s₂.labels fed.named
            (range_all 0 len (names_of stored.index stored.labels) refl
              (omega (arith, serves.laid.one_label_each)))
            labels,
      )
