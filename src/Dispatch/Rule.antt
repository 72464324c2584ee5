-- ===== src/Dispatch/Rule.antt =====
-- The branches of `dispatch_with_bpf_and_executor` as one rule.
use opti_bridge.Prelude.{
  ℕ, ◌+◌, ◌≤◌, List, [], Option, some, if◌then◌else◌, Result, if_rule, ◌==◌, not, ltb, arith,
}
use opti_bridge.Protocol.{
  cmd_load_bpf, cmd_read_bpf_map, cmd_write_bpf_map, cmd_start_bpf, cmd_query_bpf_crc,
  status_bad_length, status_bad_flags, map_write_location_size,
}
use opti_bridge.Frame.{Request}
use opti_bridge.Loader.{BpfProgramMetadata}
use opti_bridge.Dispatch.{
  Device, PacketOutcome, on_load, on_read_map, on_write_map, on_query, on_other, on_start,
  dispatch_with_bpf_and_executor, unexecuted, unexecuted?, answer,
}

module _ {ℓ κ} {E : Type ℓ} (execute : BpfProgramMetadata → List ℕ → E → Result ℕ ℕ × List ℕ × E)
    (P : Option (PacketOutcome × Device × E) → Type κ) where
  pub dispatch_rule :
      (request : Request) (d : Device) (env : E)
      → ((status : ℕ) → P (unexecuted env (answer status request.sequence [] d)))
      → P (unexecuted? env (on_load request d))
      → P (unexecuted env (on_read_map request d))
      → (map_write_location_size ≤ request.payload_len
          → P (unexecuted? env (on_write_map request d)))
      → P (some (on_start execute request d env))
      → P (unexecuted env (on_query request d))
      → P (unexecuted env (on_other request d))
      → P (dispatch_with_bpf_and_executor execute request d env)
  unfolding dispatch_with_bpf_and_executor
  dispatch_rule request d env refused load read write start query other =
      if_rule P (not (request.flags == 0)) (λ _. refused status_bad_flags)
        λ _.
          if_rule P (request.command == cmd_load_bpf) (λ _. load)
            λ _.
              if_rule P (request.command == cmd_read_bpf_map)
                (λ _.
                  if_rule P (not (request.payload_len == 4)) (λ _. refused status_bad_length)
                    (λ _. read))
                λ _.
                  if_rule P (request.command == cmd_write_bpf_map)
                    (λ _.
                      if_rule P (ltb request.payload_len (map_write_location_size + 1))
                        (λ _. refused status_bad_length) (λ long. write (ground arith)))
                    λ _.
                      if_rule P (request.command == cmd_start_bpf) (λ _. unless_payload start)
                        λ _.
                          if_rule P (request.command == cmd_query_bpf_crc)
                            (λ _. unless_payload query) (λ _. other)
    where
      unless_payload :
          {o : Option (PacketOutcome × Device × E)}
          → P o
          → P (
              if not (request.payload_len == 0)
              then unexecuted env (answer status_bad_length request.sequence [] d)
              else o)
      unless_payload h =
          if_rule P (not (request.payload_len == 0)) (λ _. refused status_bad_length) (λ _. h)
