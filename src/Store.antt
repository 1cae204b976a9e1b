-- ===== src/Store.antt =====
-- store.rs: the registry of open indexes and its generations on disk. A generation directory is
-- the manifest, the index and the labels that its files decode to; the encodings and the checksums
-- of the files are left out, and so is the clean-up of `.tmp-` and `.deleted-` names, which no
-- code reads back as a shard. A `Duration`, a lock and a path have no counterpart.
pub mod Registry
pub mod Generations
use turbovec_grpc.Prelude.{
  Bool, List, Option, Text, [], display, false, is_some, length, none, not, some, text, text_eq,
  true, ℕ, ◌++◌, ◌==◌, ◌||◌,
}
use turbovec_grpc.Fallible.{Fallible, fail_if, ◌>>=◌, ◌>>◌}
use turbovec_grpc.Float.{F32}
use turbovec_grpc.Service.Export.{
  CalibrationState, TurboQuantIndex, calibrated, uncalibrated, unknown,
}

-- The accessors of `turbovec::IdMapIndex`.
pub record IdMapIndex : Type 0 where
  pub id_len : ℕ
  pub id_dim : Option ℕ
  pub id_bits : ℕ
  pub id_state : CalibrationState
  pub ids : List ℕ

pub data Index : Type 0 where
  positional : TurboQuantIndex → Index
  id_map : IdMapIndex → Index

unfoldable pub index_len : Index → ℕ
index_len (positional i) = i.len
index_len (id_map i) = i.id_len

unfoldable pub index_dim : Index → Option ℕ
index_dim (positional i) = i.dim_opt
index_dim (id_map i) = i.id_dim

unfoldable pub index_bits : Index → ℕ
index_bits (positional i) = i.bit_width
index_bits (id_map i) = i.id_bits

unfoldable pub index_state : Index → CalibrationState
index_state (positional i) = i.calibration_state
index_state (id_map i) = i.id_state

unfoldable pub kind_name : Index → Text
kind_name (positional i) = text "positional"
kind_name (id_map i) = text "id_map"

unfoldable pub calibration_name : CalibrationState → Text
calibration_name uncalibrated = text "uncalibrated"
calibration_name calibrated = text "calibrated"
calibration_name unknown = text "unknown"

pub record IngestRecord : Type 0 where
  pub operation_id : Text
  pub expected_len : ℕ
  pub rows : ℕ
  pub len : ℕ
  pub generation : ℕ

-- The sizes and checksums of the files are left out.
pub record ShardManifest : Type 0 where
  pub version : ℕ
  pub shard_id : Text
  pub generation : ℕ
  pub kind : Text
  pub dim : Option ℕ
  pub bit_width : ℕ
  pub rows : ℕ
  pub calibration_state : Text
  pub tqplus_shift_bits : List F32
  pub tqplus_scale_bits : List F32
  pub labelled : Bool
  pub labels_count : ℕ
  pub last_ingest : Option IngestRecord

-- A generation directory.
pub record Generation : Type 0 where
  pub manifest : ShardManifest
  pub index : Index
  pub labels : Option (List ℕ)

-- A shard directory: its generations and its `CURRENT` pointer.
pub record ShardDir : Type 0 where
  pub generations : List (ℕ × Generation)
  pub current : Option ℕ

abbrev pub manifest_version : ℕ
manifest_version = 1

unfoldable pub shift_bits : Index → List F32
shift_bits (positional i) = i.tqplus_shift
shift_bits (id_map i) = []

unfoldable pub scale_bits : Index → List F32
scale_bits (positional i) = i.tqplus_scale
scale_bits (id_map i) = []

abbrev pub count_of : Option (List ℕ) → ℕ
count_of none = 0
count_of (some labels) = length labels

unfoldable pub manifest_for :
    Text → ℕ → Index → Option (List ℕ) → Option IngestRecord → ShardManifest
unfolding shift_bits scale_bits kind_name index_dim index_bits index_len calibration_name
    index_state
manifest_for id generation index labels last_ingest = record {
  version = manifest_version;
  shard_id = id;
  generation = generation;
  kind = kind_name index;
  dim = index_dim index;
  bit_width = index_bits index;
  rows = index_len index;
  calibration_state = calibration_name (index_state index);
  tqplus_shift_bits = shift_bits index;
  tqplus_scale_bits = scale_bits index;
  labelled = is_some labels;
  labels_count = count_of labels;
  last_ingest = last_ingest;
}

unfoldable pub validate_manifest_header : ShardManifest → Text → ℕ → Fallible (Unit {0})
validate_manifest_header manifest id generation = do
  fail_if (not (manifest.version == manifest_version))
      (text "shard " ++ (id ++ (text " manifest version " ++ display manifest.version)))
  fail_if (not (text_eq manifest.shard_id id) || not (manifest.generation == generation))
      (text "manifest identity mismatch for " ++ id)

unfoldable pub same_dim : Option ℕ → Option ℕ → Bool
same_dim none none = true
same_dim (some a) (some b) = a == b
same_dim none (some b) = false
same_dim (some a) none = false

-- The comparison of the calibration bits; for an id-mapped index both lists are empty.
unfoldable pub validate_loaded_index : ShardManifest → Index → Fallible (Unit {0})
unfolding same_dim kind_name index_dim index_bits index_len calibration_name index_state shift_bits
    scale_bits
validate_loaded_index manifest index = do
  fail_if
      (not (text_eq manifest.kind (kind_name index))
        || not (same_dim manifest.dim (index_dim index))
        || not (manifest.bit_width == index_bits index)
        || not (manifest.rows == index_len index)
        || not (text_eq manifest.calibration_state (calibration_name (index_state index))))
      (text "loaded shard "
        ++ (manifest.shard_id ++ text " does not match its manifest shape or calibration state"))
  fail_if
      (not (text_eq manifest.tqplus_shift_bits (shift_bits index))
        || not (text_eq manifest.tqplus_scale_bits (scale_bits index)))
      (text "loaded shard "
        ++ (manifest.shard_id ++ text " calibration bits differ from its manifest"))
