-- ===== src/Service/Export.antt =====
-- service.rs: `export_range`, `export_block` and the frames of `export_rows`.
use turbovec_grpc.Prelude.{
  List, Option, [], display, drop, if◌then◌else◌, length, ltb, min, none, not, some, suc, take,
  text, u64_mod, zero, ℕ, ◌*◌, ◌++◌, ◌+◌, ◌-◌, ◌/◌, ◌==◌, ◌||◌, ◌∷◌,
}
use turbovec_grpc.Float.{F32}
use turbovec_grpc.Status.{
  Result, err, invalid, ok, panic, precondition, refuse_if, row_count_mismatch, ◌>>=◌, ◌>>◌,
}
use turbovec_grpc.Wire.{RowBlock}

-- `turbovec::CalibrationState`, which may grow.
pub data CalibrationState : Type 0 where
  uncalibrated calibrated unknown : CalibrationState

-- The parts of a `TurboQuantIndex` that its accessors show; the lengths of the vectors are the
-- library's promise, which `IsLaidOut` states.
pub record TurboQuantIndex : Type 0 where
  pub len : ℕ
  pub dim_opt : Option ℕ
  pub bit_width : ℕ
  pub calibration_state : CalibrationState
  pub packed_codes : List ℕ
  pub scales : List F32
  pub tqplus_shift : List F32
  pub tqplus_scale : List F32

unfoldable pub export_range : TurboQuantIndex → ℕ → ℕ → Result (ℕ × ℕ)
export_range index first count =
    let rows = if count == 0 then index.len - first else count in
    do
      refuse_if (ltb index.len first) (
          invalid row_count_mismatch (
            text "start "
            ++ (display first
                ++ (text " is past the end of an index holding "
                    ++ (display index.len ++ text " rows")))))
      refuse_if (not (ltb (first + rows) u64_mod))
          (invalid row_count_mismatch (text "export range overflowed"))
      refuse_if (ltb index.len (first + rows)) (
          invalid row_count_mismatch (
            text "rows "
            ++ (display first
                ++ (text ".."
                    ++ (display (first + rows)
                        ++ (text " run past an index holding "
                            ++ (display index.len ++ text " rows")))))))
      ok (first, rows)

-- `vec[from..to]`, which panics when the range is not inside.
unfoldable pub slice {ℓ} : {A : Type ℓ} → List A → ℕ → ℕ → Result (List A)
slice xs from to =
    if ltb to from || ltb (length xs) to then panic else ok (take (to - from) (drop from xs))

-- `(first..first + rows).collect()`
unfoldable pub slots_from : ℕ → ℕ → List ℕ
slots_from first zero = []
slots_from first (suc rows) = first ∷ slots_from (suc first) rows

unfoldable pub block_labels : Option (List ℕ) → ℕ → ℕ → Result (List ℕ)
unfolding slots_from slice
block_labels none first rows = ok (slots_from first rows)
block_labels (some table) first rows = slice table first (first + rows)

unfoldable pub bound_dim : Option ℕ → Result ℕ
bound_dim (some dim) = ok dim
bound_dim none = err (
    precondition row_count_mismatch
      (text "ExportRows needs an index with a bound dim; this one has never held a row"))

unfoldable pub export_block : TurboQuantIndex → Option (List ℕ) → ℕ → ℕ → Result RowBlock
unfolding export_range slice block_labels bound_dim
export_block index labels first count = do
  range ← export_range index first count
  dim ← bound_dim index.dim_opt
  packed ←
      slice index.packed_codes (range.0 * (index.bit_width * (dim / 8)))
        ((range.0 + range.1) * (index.bit_width * (dim / 8)))
  scales ← slice index.scales range.0 (range.0 + range.1)
  named ← block_labels labels range.0 range.1
  ok (record {
    dim = dim;
    bit_width = index.bit_width;
    rows = range.1;
    packed_codes = packed;
    scales = scales;
    tqplus_shift = index.tqplus_shift;
    tqplus_scale = index.tqplus_scale;
    labels = named;
  })

-- `MAX_EXPORT_FRAME_BYTES`
abbrev pub max_export_frame_bytes : ℕ
max_export_frame_bytes = 2 * 1024 * 1024

unfoldable pub rows_per_frame : ℕ → ℕ → ℕ
rows_per_frame bit_width dim =
    let bytes = bit_width * (dim / 8) + 12 in
    let n = (max_export_frame_bytes - dim * 8) / bytes in if n == 0 then 1 else n

unfoldable pub sent :
    Result RowBlock → List RowBlock × Result (Unit {0}) → List RowBlock × Result (Unit {0})
sent (ok b) (bs, r) = (b ∷ bs, r)
sent (err e) more = ([], err e)
sent panic more = ([], panic)

-- The loop of `export_rows`, on fuel: the rows that are left suffice. The messages that were sent
-- and how the stream ended.
unfoldable pub export_loop :
    TurboQuantIndex → Option (List ℕ) → ℕ → ℕ → ℕ → ℕ → List RowBlock × Result (Unit {0})
unfolding export_block sent
export_loop index labels per zero first rows = ([], ok tt)
export_loop index labels per (suc fuel) first rows =
    let count = min per rows in
    let rest = export_loop index labels per fuel (first + count) (rows - count) in
    if rows == 0 then ([], ok tt) else sent (export_block index labels first count) rest

-- `export_rows` on a positional index: the messages of the stream and how it ended.
unfoldable pub export_rows :
    TurboQuantIndex → Option (List ℕ) → ℕ → ℕ → List RowBlock × Result (Unit {0})
unfolding export_range bound_dim sent export_block export_loop rows_per_frame
export_rows index labels first count =
    stream
      (do range ← export_range index first count; dim ← bound_dim index.dim_opt; ok (range, dim))
  where
    frames : ℕ → ℕ → ℕ → List RowBlock × Result (Unit {0})
    frames from rows dim =
        if rows == 0
        then sent (export_block index labels from 0) ([], ok tt)
        else export_loop index labels (rows_per_frame index.bit_width dim) rows from rows

    stream : Result ((ℕ × ℕ) × ℕ) → List RowBlock × Result (Unit {0})
    stream (ok ((from, rows), dim)) = frames from rows dim
    stream (err e) = ([], err e)
    stream panic = ([], panic)
