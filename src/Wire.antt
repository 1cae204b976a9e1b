-- ===== src/Wire.antt =====
-- The messages of proto/turbovec/v1 that the modelled code reads and builds, as records.
use turbovec_grpc.Prelude.{Bool, List, Option, Text, ℕ}
use turbovec_grpc.Float.{F32}

pub data IndexKind : Type 0 where
  unspecified positional id_map : IndexKind

pub record IndexInfo : Type 0 where
  pub index_id : Text
  pub kind : IndexKind
  pub dim : ℕ
  pub bit_width : ℕ
  pub len : ℕ
  pub labelled : Bool
  pub generation : ℕ

pub record Calibration : Type 0 where
  pub state : ℕ
  pub tqplus_shift : List F32
  pub tqplus_scale : List F32

pub record LabelBitmap : Type 0 where
  pub base_label : ℕ
  pub label_count : ℕ
  pub bits : List ℕ

pub record StartStreamSearch : Type 0 where
  pub index_id : Text
  pub vector : List F32
  pub initial_floor : Option F32
  pub request_id : Text
  pub allowed_labels : List ℕ
  pub has_allowed_labels : Bool
  pub allowed_label_bitmaps : List LabelBitmap

-- The payload of `StreamSearchRequest`.
pub data StreamSearchRequest : Type 0 where
  start : StartStreamSearch → StreamSearchRequest
  floor_update : F32 → StreamSearchRequest
  stop : StreamSearchRequest

pub record StreamSearchBatch : Type 0 where
  pub scores : List F32
  pub slots : List ℕ
  pub labels : List ℕ

pub record StreamSearchSummary : Type 0 where
  pub completed : Bool
  pub emitted : ℕ
  pub blocks_scanned : ℕ
  pub floor_raises_applied : ℕ

-- The payload of `StreamSearchResponse`, which may be absent.
pub data StreamSearchResponse : Type 0 where
  batch : StreamSearchBatch → StreamSearchResponse
  summary : StreamSearchSummary → StreamSearchResponse
  absent : StreamSearchResponse

pub record Neighbour : Type 0 where
  pub score : F32
  pub label : Option ℕ
  pub address : Text
  pub index_id : Text
  pub slot : ℕ

pub record ShardRef : Type 0 where
  pub address : Text
  pub index_id : Text

pub record RowBlock : Type 0 where
  pub dim : ℕ
  pub bit_width : ℕ
  pub rows : ℕ
  pub packed_codes : List ℕ
  pub scales : List F32
  pub tqplus_shift : List F32
  pub tqplus_scale : List F32
  pub labels : List ℕ
