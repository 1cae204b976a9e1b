-- ===== src/Service/Import.antt =====
-- service.rs: `ImportBuilder` and the frames of `import_rows`.
use turbovec_grpc.Prelude.{
  List, Option, Text, [], display, length, ltb, none, not, some, suc, text, u64_mod, ℕ, ◌++◌, ◌+◌,
  ◌==◌, ◌||◌, ◌∷◌,
}
use turbovec_grpc.Float.{F32}
use turbovec_grpc.Fallible.{Fallible, done, fail, panics}
use turbovec_grpc.Status.{
  Result, bit_width_mismatch, dimension_mismatch, err, invalid, invalid_argument, mixed_calibration,
  ok, panic, precondition, refuse_if, row_count_mismatch, status, ◌>>=◌, ◌>>◌,
}
use turbovec_grpc.Wire.{RowBlock}
use turbovec_grpc.Service.Calibration.{calibration_difference}

-- The message of a start frame or of a block; a frame may hold neither.
pub data ImportRowsRequest : Type 0 where
  import_start : ℕ → ImportRowsRequest
  block : RowBlock → ImportRowsRequest
  absent : ImportRowsRequest

-- `usize` is 64 bits wide, so `usize::try_from` of a `u64` succeeds.
pub record ImportBuilder : Type 0 where
  pub expected_rows : ℕ
  pub head : Option RowBlock
  pub blocks : ℕ
  pub rows : ℕ
  pub packed : List ℕ
  pub scales : List F32
  pub labels : List ℕ

unfoldable pub new_builder : ℕ → ImportBuilder
new_builder expected_rows = record {
  expected_rows = expected_rows;
  head = none;
  blocks = 0;
  rows = 0;
  packed = [];
  scales = [];
  labels = [];
}

unfoldable pub refuse_pair : ℕ → Option Text → Result (Unit {0})
refuse_pair bi none = ok tt
refuse_pair bi (some detail) = err (
    precondition mixed_calibration (
      text "block 0 and block "
      ++ (display bi ++ (text " were encoded under different pairs: " ++ detail))))

-- The comparison with the first block, when there is one.
unfoldable pub check_head : ℕ → Option RowBlock → RowBlock → Result (Unit {0})
unfolding refuse_pair
check_head bi none b = ok tt
check_head bi (some head) b = do
  refuse_if (not (b.dim == head.dim)) (
      precondition dimension_mismatch (
        text "block 0 carries dim "
        ++ (display head.dim
            ++ (text " and block " ++ (display bi ++ (text " carries dim " ++ display b.dim))))))
  refuse_if (not (b.bit_width == head.bit_width)) (
      precondition bit_width_mismatch (
        text "block 0 is "
        ++ (display head.bit_width
            ++ (text "-bit and block "
                ++ (display bi ++ (text " is " ++ (display b.bit_width ++ text "-bit")))))))
  refuse_pair bi (
      calibration_difference (head.tqplus_shift, head.tqplus_scale)
        (b.tqplus_shift, b.tqplus_scale))

-- The first block leaves its shape and its pair behind.
unfoldable pub head_after : Option RowBlock → RowBlock → Option RowBlock
head_after (some head) b = some head
head_after none b = some (record {
  dim = b.dim;
  bit_width = b.bit_width;
  rows = 0;
  packed_codes = [];
  scales = [];
  tqplus_shift = b.tqplus_shift;
  tqplus_scale = b.tqplus_scale;
  labels = [];
})

-- The state that a valid block leaves.
unfoldable pub extend : ImportBuilder → RowBlock → ImportBuilder
unfolding head_after
extend s b = record {
  expected_rows = s.expected_rows;
  head = head_after s.head b;
  blocks = suc s.blocks;
  rows = s.rows + b.rows;
  packed = s.packed ++ b.packed_codes;
  scales = s.scales ++ b.scales;
  labels = s.labels ++ b.labels;
}

unfoldable pub push : ImportBuilder → RowBlock → Result ImportBuilder
unfolding check_head extend
push s b = do
  check_head s.blocks s.head b
  refuse_if (not (length b.scales == b.rows) || not (length b.labels == b.rows)) (
      invalid row_count_mismatch (
        text "block "
        ++ (display s.blocks
            ++ (text " claims "
                ++ (display b.rows
                    ++ (text " rows but carries "
                        ++ (display (length b.scales)
                            ++ (text " scales and "
                                ++ (display (length b.labels) ++ text " labels")))))))))
  refuse_if (not (ltb (s.rows + b.rows) u64_mod))
      (invalid row_count_mismatch (text "import row count overflowed"))
  refuse_if (ltb s.expected_rows (s.rows + b.rows)) (
      invalid row_count_mismatch (
        text "import declared "
        ++ (display s.expected_rows
            ++ (text " rows but received at least " ++ display (s.rows + b.rows)))))
  ok (extend s b)

-- The arguments of `TurboQuantIndex::from_parts`, with the labels.
pub record Parts : Type 0 where
  pub dim : ℕ
  pub bit_width : ℕ
  pub rows : ℕ
  pub packed : List ℕ
  pub scales : List F32
  pub tqplus_shift : List F32
  pub tqplus_scale : List F32
  pub labels : List ℕ

unfoldable pub finish_head : Option RowBlock → ImportBuilder → Result Parts
finish_head none s =
    err (invalid row_count_mismatch (text "ImportRows needs at least one row block"))
finish_head (some head) s = do
  refuse_if (not (s.rows == s.expected_rows)) (
      invalid row_count_mismatch (
        text "import declared "
        ++ (display s.expected_rows ++ (text " rows but received " ++ display s.rows))))
  ok (record {
    dim = head.dim;
    bit_width = head.bit_width;
    rows = s.rows;
    packed = s.packed;
    scales = s.scales;
    tqplus_shift = head.tqplus_shift;
    tqplus_scale = head.tqplus_scale;
    labels = s.labels;
  })

unfoldable pub finish : ImportBuilder → Result Parts
unfolding finish_head
finish s = finish_head s.head s

-- The frames behind the first one.
unfoldable pub push_frames : ImportBuilder → List ImportRowsRequest → Result ImportBuilder
push_frames s [] = ok s
push_frames s (block b ∷ frames) = do s' ← push s b; push_frames s' frames
push_frames s (import_start n ∷ frames) =
    err (status invalid_argument (text "ImportRowsStart must appear exactly once and first"))
push_frames s (absent ∷ frames) =
    err (status invalid_argument (text "ImportRowsStart must appear exactly once and first"))

-- `import_rows` up to the arguments of `from_parts`; the stream is the list of its frames.
unfoldable pub import_parts : List ImportRowsRequest → Result Parts
unfolding push_frames new_builder
import_parts [] = err (status invalid_argument (text "empty import stream"))
import_parts (import_start n ∷ frames) = do s ← push_frames (new_builder n) frames; finish s
import_parts (block b ∷ frames) =
    err (status invalid_argument (text "first import frame must be ImportRowsStart"))
import_parts (absent ∷ frames) =
    err (status invalid_argument (text "first import frame must be ImportRowsStart"))

unfoldable pub formed : {I : Type 0} → Fallible I → Result I
formed (done index) = ok index
formed (fail e) = err (status invalid_argument (text "row blocks do not form an index: " ++ e))
formed panics = panic

-- The index and the labels that `import_rows` inserts, where `from_parts` is that of the library.
unfoldable pub import_index :
    {I : Type 0} → (Parts → Fallible I) → List ImportRowsRequest → Result (I × List ℕ)
unfolding formed import_parts
import_index from_parts frames = do
  parts ← import_parts frames
  index ← formed (from_parts parts)
  ok (index, parts.labels)
