-- ===== src/Dispatch/Safety/Serving.antt =====
-- `dispatch_with_bpf_and_executor` as a whole: what it does for a request of a parser.
use opti_bridge.Prelude.{
  ℕ, if_rule, ◌≡◌, Option, none, some, List, [], length, inl, inr, Result, ok, err, Result-cases,
  ◌==◌, arith,
}
use opti_bridge.Protocol.{bpf_max_map_bytes}
use opti_bridge.Frame.{Request, IsRequest}
use opti_bridge.Loader.{BpfLoader, BpfProgramMetadata, execution_metadata, mark_running}
use opti_bridge.Loader.Image.Invariant.{IsLoader}
use opti_bridge.Dispatch.Rule.{dispatch_rule}
use opti_bridge.Dispatch.{
  PacketOutcome, Device, on_load, on_write_map, settle_start, start_marked, on_start,
  dispatch_with_bpf_and_executor, unexecuted?,
}
use opti_bridge.Loader.Image.Invariant.Requests.{mark_running-IsLoader}
use opti_bridge.Dispatch.Safety.Handlers.{
  on_load-Serves, on_read_map-Serves, on_write_map-Serves, on_query-Serves, on_other-Serves,
}
use opti_bridge.Dispatch.Safety.{IsDevice, Serves, Serves?, answer-Serves, empty_short}

-- A served request, with the executor's environment beside the device.
abbrev pub Served {ℓ} : {E : Type ℓ} → Request → Option (PacketOutcome × Device × E) → Type 0
Served request none = ⊥
Served request (some (outcome, d, env)) = Serves request (outcome, d)

module _ {ℓ} {E : Type ℓ} (execute : BpfProgramMetadata → List ℕ → E → Result ℕ ℕ × List ℕ × E)
    (execute_full : (metadata : BpfProgramMetadata) (backing : List ℕ) (env : E)
      → length backing ≡ bpf_max_map_bytes
      → length (execute metadata backing env).1 ≡ bpf_max_map_bytes) where
  settle_start-IsLoader :
      (result : Result ℕ ℕ) (l : BpfLoader)
      → IsLoader l
      → l.pending ≡ none
      → IsLoader (settle_start result l).1
  settle_start-IsLoader (err status) l v quiet = v
  settle_start-IsLoader (ok value) l v quiet =
      if_rule (λ (x : ℕ × BpfLoader). IsLoader x.1) (value == 0)
        (λ _. marked (mark_running l) (mark_running-IsLoader v quiet)) (λ _. v)
    where
      marked : (x : BpfLoader × Result (Unit {0}) ℕ) → IsLoader x.0 → IsLoader (start_marked x).1
      marked (l', ok done) h = h
      marked (l', err status) h = h

  executable_quiet :
      (l : BpfLoader) {metadata : BpfProgramMetadata}
      → execution_metadata l ≡ ok metadata
      → l.pending ≡ none
  unfolding execution_metadata
  executable_quiet l h = ground arith

  on_start-Serves :
      (request : Request) (d : Device) (env : E)
      → IsDevice d
      → let (outcome, d', env') = on_start execute request d env in Serves request (outcome, d')
  unfolding on_start
  on_start-Serves request d env v = elim (Result-cases (execution_metadata d.loader)) [
    | inr (status, e) ↦ rw (e, on_start) (answer-Serves status request [] d empty_short v)
    | inl (metadata, e) ↦
        let x = execute metadata d.map_backing env in
        let y = settle_start x.0 d.loader in
        rw (e, on_start)
          (answer-Serves y.0 request [] (record d { loader = y.1; map_backing = x.1 }) empty_short
            record {
              queue = v.queue;
              loader = settle_start-IsLoader x.0 d.loader v.loader (executable_quiet d.loader e);
              backing_full = execute_full metadata d.map_backing env v.backing_full;
              output_full = v.output_full;
            })
  ]

  unexecuted?-Served :
      (request : Request) (env : E) (o : Option (PacketOutcome × Device))
      → Serves? request o
      → Served request (unexecuted? env o)
  unexecuted?-Served request env none h = elim h [ ]
  unexecuted?-Served request env (some step) h = h

  -- A request of the form that parsers deliver, given to a device in order, never panics: it gets
  -- one reply that is a whole frame with the request's sequence and zero flags, or is a reset, and
  -- the device is in order afterwards, provided that the executor keeps the size of the backing
  -- store.
  pub dispatch-Served :
      (request : Request) (d : Device) (env : E)
      → IsRequest request
      → IsDevice d
      → Served request (dispatch_with_bpf_and_executor execute request d env)
  dispatch-Served request d env r v =
      dispatch_rule execute (Served request) request d env
        (λ status. answer-Serves status request [] d empty_short v)
        (unexecuted?-Served request env (on_load request d) (on_load-Serves request d r v))
        (on_read_map-Serves request d v)
        (λ long.
          unexecuted?-Served request env (on_write_map request d)
            (on_write_map-Serves request d r long v))
        (on_start-Serves request d env v) (on_query-Serves request d v)
        (on_other-Serves request d v)
