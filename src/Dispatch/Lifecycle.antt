-- ===== src/Dispatch/Lifecycle.antt =====
-- The commands to a program that runs.
use opti_bridge.Prelude.{
  ℕ, ◌≤◌, ◌≡◌, refl, Option, none, some, List, [], inl, inr, Result, err, Result-cases, to_le32,
  ◌==◌, not, Bool-cases, bit_and, le16, get_or, arith,
}
use opti_bridge.Protocol.{
  cmd_start_bpf, cmd_load_bpf, cmd_query_bpf_crc, status_ok, status_bad_state,
  map_write_location_size,
}
use opti_bridge.Frame.{Request, IsRequest}
use opti_bridge.Loader.{BpfLoader, BpfProgramMetadata, running, execution_metadata, query}
use opti_bridge.Loader.Accept.{accepts_load}
use opti_bridge.Dispatch.{
  Device, PacketOutcome, on_load, on_read_map, on_write_map, on_query, on_other, on_start,
  dispatch_with_bpf_and_executor, unexecuted, unexecuted?, answer,
}
use opti_bridge.Loader.Maps.{read_map}
use opti_bridge.Dispatch.Rule.{dispatch_rule}
use opti_bridge.Dispatch.Safety.{slice-IsRequest}

accepts_load_running :
    (l : BpfLoader) (request : Request) {crc : ℕ}
    → l.state ≡ running crc
    → l.pending ≡ none
    → accepts_load l request ≡ some (l, err status_bad_state)
unfolding accepts_load
accepts_load_running l request e quiet = ground arith

execution_metadata_running :
    (l : BpfLoader) {crc : ℕ}
    → l.state ≡ running crc
    → l.pending ≡ none
    → execution_metadata l ≡ err status_bad_state
unfolding execution_metadata
execution_metadata_running l e quiet = ground arith

-- The reply came with the loader as it was, and with the executor not called. A panic is neither.
abbrev pub Keeps : {E : Type 0} → Device → E → Option (PacketOutcome × Device × E) → Type 0
Keeps d env none = ⊥
Keeps d env (some (outcome, d', env')) = (d'.loader ≡ d.loader) × (env' ≡ env)

module _ {E : Type 0} (d : Device) (env : E) where
  on_write_map-Keeps :
      (request : Request)
      → IsRequest request
      → map_write_location_size ≤ request.payload_len
      → Keeps d env (unexecuted? env (on_write_map request d))
  unfolding on_write_map
  on_write_map-Keeps request r long =
      let (replacement, e) = slice-IsRequest request map_write_location_size r long in
      elim (Bool-cases (not (bit_and map_location 0xe000 == 0))) [
        | inl reserved ↦ rw (reserved, on_write_map) (refl, refl)
        | inr fits ↦ rw (fits, e, on_write_map) (refl, refl)
      ]
    where
      map_location : ℕ
      map_location = le16 (get_or request.payload 0 0) (get_or request.payload 1 0)

  on_read_map-Keeps : (request : Request) → Keeps d env (unexecuted env (on_read_map request d))
  unfolding on_read_map
  on_read_map-Keeps request =
      elim (Result-cases (
        read_map d.loader (get_or request.payload 0 0)
          (le16 (get_or request.payload 1 0) (get_or request.payload 2 0))
          (get_or request.payload 3 0) d.map_backing)) [
            | inl (bytes, e) ↦ rw (e, on_read_map) (refl, refl)
            | inr (status, e) ↦ rw (e, on_read_map) (refl, refl)
          ]

  on_query-Keeps : (request : Request) → Keeps d env (unexecuted env (on_query request d))
  unfolding on_query
  on_query-Keeps request = elim (Result-cases (query d.loader)) [
    | inl (crc, e) ↦ rw (e, on_query) (refl, refl)
    | inr (status, e) ↦ rw (e, on_query) (refl, refl)
  ]

module _ {E : Type 0} (execute : BpfProgramMetadata → List ℕ → E → Result ℕ ℕ × List ℕ × E)
    (d : Device) (env : E) {crc : ℕ} (e : d.loader.state ≡ running crc)
    (quiet : d.loader.pending ≡ none) where
  -- With the program running and nothing pending, a request without flags: Load BPF and Start are
  -- answered with `STATUS_BAD_STATE`, and Query with `STATUS_OK` and the CRC of the program, the
  -- latter two without payload; nothing but the output changes.
  running_answers :
      (request : Request)
      → request.flags ≡ 0
      → let reply = dispatch_with_bpf_and_executor execute request d env in
        (request.command ≡ cmd_load_bpf
          → reply ≡ unexecuted env (answer status_bad_state request.sequence [] d))
        × (request.command ≡ cmd_start_bpf
            → request.payload_len ≡ 0
            → reply ≡ unexecuted env (answer status_bad_state request.sequence [] d))
        × (request.command ≡ cmd_query_bpf_crc
            → request.payload_len ≡ 0
            → reply ≡ unexecuted env (answer status_ok request.sequence (to_le32 crc) d))
  unfolding dispatch_with_bpf_and_executor on_load on_start on_query query
  running_answers request f = (
    λ c. ground (arith, accepts_load_running d.loader request e quiet),
    λ c n. ground (arith, execution_metadata_running d.loader e quiet),
    λ c n. ground arith,
  )

  -- With the program running and nothing pending, a request of the form that parsers deliver is
  -- handled without a panic, the executor does not run and the loader stays as it is.
  pub running-Keeps :
      (request : Request)
      → IsRequest request
      → Keeps d env (dispatch_with_bpf_and_executor execute request d env)
  unfolding on_load on_start on_other
  running-Keeps request r =
      dispatch_rule execute (Keeps d env) request d env (λ status. (refl, refl))
        (rw (accepts_load_running d.loader request e quiet, on_load) (refl, refl))
        (on_read_map-Keeps d env request) (on_write_map-Keeps d env request r)
        (rw (execution_metadata_running d.loader e quiet, on_start) (refl, refl))
        (on_query-Keeps d env request) (refl, refl)
