-- ===== src/Coordinator/Moves/Staging.antt =====
-- coordinator/mod.rs: what the target of a move receives when the source serves an index with the
-- code of service.rs.
use turbovec_grpc.Prelude.{
  Bool-cases, List, Option, Text, [], ap, arith, inl, inr, map, refl, subst, sym, ℕ, ◌*◌, ◌++◌, ◌+◌,
  ◌<◌, ◌==◌, ◌∷◌, ◌≡◌, ◌≤◌,
}
use turbovec_grpc.Status.{>>=-eq-ok, Result, err, err-ne-ok, ok, ok-injective, panic, panic-ne-ok}
use turbovec_grpc.Wire.{RowBlock, ShardRef, absent}
use turbovec_grpc.Service.Export.{TurboQuantIndex, export_rows}
use turbovec_grpc.Service.Import.{
  ImportBuilder, ImportRowsRequest, Parts, absent, block, finish, import_parts, import_start,
  new_builder, push, push_frames,
}
use turbovec_grpc.Service.Blocks.{IsLaidOut, block_of, row_bytes}
use turbovec_grpc.Service.Feeding.{
  Fed, HasRoom, export_rows-Fed, export_rows-bound, push-Fed, some_rows,
}
use turbovec_grpc.Service.Transfer.{finish-Fed, new_builder-HasRoom, parts_of}
use turbovec_grpc.Coordinator.{Probe}
use turbovec_grpc.Coordinator.Moves.{ExportPlan, Fleet, empty_block, forward, produce}

-- An index, its labels and its dim.
pub record Stored : Type 0 where
  pub index : TurboQuantIndex
  pub labels : Option (List ℕ)
  pub dim : ℕ

-- The node of a probed shard holds this index, told of it as it is, and exports its rows.
pub record Serves (fleet : Fleet) (stored : Stored) (source : Probe) : Type 0 where
  pub laid : IsLaidOut stored.index stored.labels stored.dim
  pub dim_told : source.info.dim ≡ stored.dim
  pub bit_width_told : source.info.bit_width ≡ stored.index.bit_width
  pub len_told : source.info.len ≡ stored.index.len
  pub shift_told : source.calibration.tqplus_shift ≡ stored.index.tqplus_shift
  pub scale_told : source.calibration.tqplus_scale ≡ stored.index.tqplus_scale
  pub exports :
      (from count : ℕ)
      → fleet.export_rows source.address source.index_id from count
        ≡ export_rows stored.index stored.labels from count

-- The node at the address of a shard was sent frames that make these parts, and answered with the
-- shard's handle.
pub record Landed (fleet : Fleet) (shard : ShardRef) (parts : Parts) : Type 0 where
  pub frames : List ImportRowsRequest
  pub accepted : fleet.import_rows shard.address frames ≡ ok shard.index_id
  pub made : import_parts frames ≡ ok parts

forward-ok :
    (address : Text) (stream : List RowBlock × Result (Unit {0}))
    (rest : List ImportRowsRequest × Result (Unit {0}))
    → stream.1 ≡ ok tt
    → forward address stream rest ≡ (map block stream.0 ++ rest.0, rest.1)
unfolding forward
forward-ok address (blocks, ok u) (frames, ended) h = refl
forward-ok address (blocks, err e) rest h = absurd (err-ne-ok h)
forward-ok address (blocks, panic) rest h = absurd (panic-ne-ok h)

-- A stream that broke shows in how the task ended.
forward-ended :
    (address : Text) (stream : List RowBlock × Result (Unit {0}))
    (rest : List ImportRowsRequest × Result (Unit {0})) (u : Unit {0})
    → (forward address stream rest).1 ≡ ok u
    → stream.1 ≡ ok tt
unfolding forward
forward-ended address (blocks, ok w) rest u h = refl
forward-ended address (blocks, err e) rest u h = absurd (err-ne-ok h)
forward-ended address (blocks, panic) rest u h = absurd (panic-ne-ok h)

push_frames-append :
    (frames more : List ImportRowsRequest) (s s' : ImportBuilder)
    → push_frames s frames ≡ ok s'
    → push_frames s (frames ++ more) ≡ push_frames s' more
unfolding push_frames
push_frames-append [] more s s' h = ap (λ b. push_frames b more) (ok-injective h)
push_frames-append (import_start n ∷ frames) more s s' h = absurd (err-ne-ok h)
push_frames-append (absent ∷ frames) more s s' h = absurd (err-ne-ok h)
push_frames-append (block b ∷ frames) more s s' h =
    let (t, pushed, h₁) = >>=-eq-ok (push s b) _ h in
    rw (pushed) (push_frames-append frames more t s' h₁)

module _ (fleet : Fleet) (stored : Stored) (source : Probe)
    (serves : Serves fleet stored source) where
  abbrev pub plan_at : ℕ → ℕ → ExportPlan
  plan_at from count = record { source = source; start_row = from; count = count }

  empty_block-block_of :
      (from : ℕ) → empty_block source ≡ block_of stored.index stored.labels stored.dim from 0
  unfolding empty_block
  empty_block-block_of from =
      rw
        (
          serves.dim_told,
          serves.bit_width_told,
          serves.shift_told,
          serves.scale_told,
          zero_bytes (row_bytes stored.index stored.dim),
        )
        refl
    where
      zero_bytes : (b : ℕ) → 0 * b ≡ 0
      zero_bytes b = omega arith

  -- The frames of a plan whose rows are there bring a builder just those rows.
  pub produce-Fed :
      (from count : ℕ) (s : ImportBuilder) (plans : List ExportPlan)
      → from + count ≤ stored.index.len
      → HasRoom stored.index stored.labels stored.dim count s
      → (s' : ImportBuilder) × Fed stored.index stored.labels stored.dim from count s s'
        × (push_frames s (produce fleet (plan_at from count ∷ plans)).0
            ≡ push_frames s' (produce fleet plans).0)
        × ((produce fleet (plan_at from count ∷ plans)).1 ≡ (produce fleet plans).1)
  unfolding produce push_frames
  produce-Fed from count s plans h free = elim (Bool-cases (count == 0)) [
    | inl e ↦
        let none_asked : count ≡ 0 = ground arith in
        let (s', pushed, fed) =
          push-Fed stored.index stored.labels stored.dim serves.laid from 0 s (omega arith)
            (subst (λ n. HasRoom stored.index stored.labels stored.dim n s) none_asked free) in
        (
          s',
          subst (λ n. Fed stored.index stored.labels stored.dim from n s s') (sym none_asked) fed,
          rw (e, empty_block-block_of from, pushed) refl,
          rw (e) refl,
        )
    | inr e ↦
        let asked : 0 < count = ground arith in
        let (ended, s', pushed, fed) =
          export_rows-Fed stored.index stored.labels stored.dim serves.laid from count count s
            (some_rows stored.index stored.labels stored.dim serves.laid from count asked h) h
            (λ z. absurd (omega arith)) free in
        let forwarded =
          forward-ok source.address (export_rows stored.index stored.labels from count)
            (produce fleet plans) ended in
        (
          s',
          fed,
          rw (e, serves.exports from count, forwarded)
              (push_frames-append _ (produce fleet plans).0 s s' pushed),
          rw (e, serves.exports from count, forwarded) refl,
        )
  ]

  -- A plan whose task ends well asked for rows that are there.
  pub produce-bound :
      (from count : ℕ) (u : Unit {0})
      → from ≤ stored.index.len
      → (produce fleet (plan_at from count ∷ [])).1 ≡ ok u
      → from + count ≤ stored.index.len
  unfolding produce
  produce-bound from count u at h = elim (Bool-cases (count == 0)) [
    | inl e ↦ ground arith
    | inr e ↦
        let asked : 0 < count = ground arith in
        export_rows-bound stored.index stored.labels stored.dim serves.laid from count asked (
          rw (← serves.exports from count)
            (forward-ended source.address _ ([], ok tt) u (rw (e) at h)))
  ]

  -- What a target of a split is sent.
  abbrev pub sent_frames : ℕ → ℕ → List ImportRowsRequest
  sent_frames from count = import_start count ∷ (produce fleet (plan_at from count ∷ [])).0

  pub sent_frames-parts_of :
      (from count : ℕ)
      → from + count ≤ stored.index.len
      → (import_parts (sent_frames from count)
          ≡ ok (parts_of stored.index stored.labels stored.dim serves.laid from count))
        × ((produce fleet (plan_at from count ∷ [])).1 ≡ ok tt)
  unfolding import_parts produce finish
  sent_frames-parts_of from count h =
      let (s, fed, pushed, ended) = produce-Fed from count (new_builder count) [] h (
        new_builder-HasRoom stored.index stored.labels stored.dim serves.laid count
          (omega (arith, serves.laid.fits))) in
      (
        rw (pushed) (finish-Fed stored.index stored.labels stored.dim serves.laid from count s fed),
        ended,
      )
