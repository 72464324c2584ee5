-- ===== src/Loader.antt =====
-- `BpfLoader` of crates/optibridge-protocol/src/lib.rs: its state, the trait `BpfFlash`, and the
-- queries. The children hold the operations: `Accept` the I2C side of Load BPF, `Image` the flash
-- side, `Maps` the access to map backing.
pub mod Accept
pub mod Image
pub mod Maps
use opti_bridge.Prelude.{
  ℕ, zero, suc, ◌+◌, ◌*◌, ◌%◌, ◌^◌, Bool, true, false, Option, none, some, List, [], ◌∷◌, length,
  get_or, set, replicate, Result, ok, err, ◌>>=◌, ◌>>◌, fail_if, ltb, ◌==◌, if◌then◌else◌, not,
  ◌||◌, checked_add, checked_mul,
}
use opti_bridge.Protocol.{
  status_busy, status_bad_state, status_no_program, bpf_max_maps, bpf_max_bytecode, bpf_header_size,
  bpf_flash_size, bpf_map_descriptor_size,
}

-- `data_op` holds an array of 12 bytes of which the first `len` count.
pub data LoadOperation : Type 0 where
  begin_op : (bytecode_len map_count expected_crc : ℕ) → LoadOperation
  data_op : (offset : ℕ) (bytes : List ℕ) (len : ℕ) → LoadOperation
  finalize_op : LoadOperation

-- A read is given the length of the buffer and answers with what fills it; no caller looks at the
-- buffer of a read that failed.
pub record BpfFlash {ℓ} (S : Type ℓ) : Type ℓ where
  pub read : S → ℕ → ℕ → S × Result (List ℕ) (Unit {0})
  pub write : S → ℕ → List ℕ → S × Result (Unit {0}) (Unit {0})
  pub erase : S → ℕ → ℕ → S × Result (Unit {0}) (Unit {0})

pub data LoaderState : Type 0 where
  empty receiving : LoaderState
  committed running failed : ℕ → LoaderState

pub record MapLayout : Type 0 where
  pub offset : ℕ
  pub len : ℕ
  pub key_size : ℕ
  pub value_size : ℕ

pub record BpfMapMetadata : Type 0 where
  pub backing_offset : ℕ
  pub backing_len : ℕ
  pub key_size : ℕ
  pub value_size : ℕ

pub record BpfProgramMetadata : Type 0 where
  pub bytecode_len : ℕ
  pub map_count : ℕ
  pub maps : List BpfMapMetadata

abbrev pub empty_layout : MapLayout
empty_layout = record { offset = 0; len = 0; key_size = 0; value_size = 0 }

abbrev pub no_layouts : List MapLayout
no_layouts = replicate bpf_max_maps empty_layout

pub record BpfLoader : Type 0 where
  pub state : LoaderState
  pub pending : Option LoadOperation
  pub bytecode_len : ℕ
  pub map_count : ℕ
  pub image_len : ℕ
  pub next_offset : ℕ
  pub expected_crc : ℕ
  pub crc : ℕ
  pub map_layouts : List MapLayout
  pub committed_map_count : ℕ

abbrev pub new : BpfLoader
new = record {
  state = empty;
  pending = none;
  bytecode_len = 0;
  map_count = 0;
  image_len = 0;
  next_offset = 0;
  expected_crc = 0;
  crc = 0xffff_ffff;
  map_layouts = no_layouts;
  committed_map_count = 0;
}

-- `self.pending.is_some()`
abbrev pub is_pending : Option LoadOperation → Bool
is_pending none = false
is_pending (some operation) = true

abbrev pub has_pending : BpfLoader → Bool
has_pending l = is_pending l.pending

abbrev pub clear_map_layouts : BpfLoader → BpfLoader
clear_map_layouts l = record l { map_layouts = no_layouts; committed_map_count = 0 }

-- `usize` has 32 bits on the target.
unfoldable pub image_len : ℕ → ℕ → Option ℕ
image_len bytecode_len map_count = elim (checked_mul (2 ^ 32) map_count bpf_map_descriptor_size) [
  | none ↦ none
  | some descriptors ↦ checked_add (2 ^ 32) bytecode_len descriptors
]

-- The bounds that a Begin request and a stored header are both checked against.
abbrev pub is_bad_image : ℕ → ℕ → ℕ → Bool
is_bad_image bytecode_len map_count image_len =
    bytecode_len == 0
    || ltb bpf_max_bytecode bytecode_len
    || not (bytecode_len % 8 == 0)
    || ltb bpf_max_maps map_count
    || ltb bpf_flash_size (image_len + bpf_header_size)

abbrev query_state : LoaderState → Result ℕ ℕ
query_state (committed crc) = ok crc
query_state (running crc) = ok crc
query_state (failed status) = err status
query_state empty = err status_no_program
query_state receiving = err status_no_program

unfoldable pub query : BpfLoader → Result ℕ ℕ
query l = do fail_if (is_pending l.pending) status_busy; query_state l.state

abbrev pub metadata_of : MapLayout → BpfMapMetadata
metadata_of layout = record {
  backing_offset = layout.offset;
  backing_len = layout.len;
  key_size = layout.key_size;
  value_size = layout.value_size;
}

abbrev pub no_metadata : BpfMapMetadata
no_metadata = record { backing_offset = 0; backing_len = 0; key_size = 0; value_size = 0 }

-- The loop of `committed_metadata`, with the rounds left and the index.
unfoldable pub fill_maps : ℕ → ℕ → List MapLayout → List BpfMapMetadata → List BpfMapMetadata
fill_maps zero index layouts maps = maps
fill_maps (suc left) index layouts maps =
    fill_maps left (index + 1) layouts
      (set maps index (metadata_of (get_or layouts index empty_layout)))

unfoldable pub committed_metadata : BpfLoader → BpfProgramMetadata
unfolding fill_maps
committed_metadata l = record {
  bytecode_len = l.bytecode_len;
  map_count = l.committed_map_count;
  maps = fill_maps l.committed_map_count 0 l.map_layouts (replicate bpf_max_maps no_metadata);
}

abbrev executable_state : LoaderState → Result (Unit {0}) ℕ
executable_state (committed crc) = ok tt
executable_state (running crc) = err status_bad_state
executable_state (failed status) = err status
executable_state empty = err status_no_program
executable_state receiving = err status_no_program

unfoldable pub execution_metadata : BpfLoader → Result BpfProgramMetadata ℕ
execution_metadata l = do
  fail_if (is_pending l.pending) status_busy
  executable_state l.state
  ok (committed_metadata l)

abbrev event_state : LoaderState → Result (Unit {0}) ℕ
event_state (committed crc) = ok tt
event_state (running crc) = ok tt
event_state (failed status) = err status
event_state empty = err status_no_program
event_state receiving = err status_no_program

unfoldable pub event_execution_metadata : BpfLoader → Result BpfProgramMetadata ℕ
event_execution_metadata l = do
  fail_if (is_pending l.pending) status_busy
  event_state l.state
  ok (committed_metadata l)

abbrev pub mark_from : LoaderState → BpfLoader → BpfLoader × Result (Unit {0}) ℕ
mark_from (committed crc) l = (record l { state = running crc }, ok tt)
mark_from (running crc) l = (l, err status_bad_state)
mark_from (failed status) l = (l, err status)
mark_from empty l = (l, err status_no_program)
mark_from receiving l = (l, err status_no_program)

unfoldable pub mark_running : BpfLoader → BpfLoader × Result (Unit {0}) ℕ
mark_running l = mark_from l.state l
