-- ===== src/Dispatch/Starts.antt =====
-- Requests in turn, with no flash work between them: how often the program is started.
use opti_bridge.Prelude.{
  ℕ, zero, suc, ◌≡◌, ◌≢◌, refl, sym, subst, Option, none, some, List, [], ◌∷◌, length, All, Result,
  ok, err, Option-cases, Result-cases, inl, inr, arith,
}
use opti_bridge.Protocol.{bpf_max_map_bytes}
use opti_bridge.Frame.{Request, IsRequest}
use opti_bridge.Loader.{
  BpfLoader, BpfProgramMetadata, LoaderState, empty, receiving, failed, committed, running,
  execution_metadata, mark_running,
}
use opti_bridge.Dispatch.{
  Device, PacketOutcome, on_load, on_write_map, on_start, settle_start, unexecuted?,
  dispatch_with_bpf_and_executor,
}
use opti_bridge.Dispatch.Rule.{dispatch_rule}
use opti_bridge.Dispatch.Safety.{IsDevice}
use opti_bridge.Dispatch.Safety.Serving.{Served, dispatch-Served}
use opti_bridge.Dispatch.Lifecycle.{Keeps, running-Keeps}

abbrev pub Executor : Type 0 → Type 0
Executor E = BpfProgramMetadata → List ℕ → E → Result ℕ ℕ × List ℕ × E

module _ {E : Type 0} where
  -- Requests in turn; `none` is a panic.
  unfoldable pub serve_all : Executor E → List Request → Device → E → Option (Device × E)
  serve_all execute [] d env = some (d, env)
  serve_all execute (request ∷ requests) d env =
      elim (dispatch_with_bpf_and_executor execute request d env) [
        | none ↦ none
        | some (outcome, d', env') ↦ serve_all execute requests d' env'
      ]

  -- The executor, with what its runs answered, the last one first.
  abbrev pub recorded : Executor E → Executor (E × List (Result ℕ ℕ))
  recorded execute metadata backing (env, runs) =
      let (result, backing', env') = execute metadata backing env in
      (result, backing', (env', result ∷ runs))

abbrev pub AllFail : List (Result ℕ ℕ) → Type 0
AllFail = All (λ result. result ≢ ok 0)

-- No run returned zero; or the last one alone did, and its program is marked as running.
pub data Once (l : BpfLoader) : List (Result ℕ ℕ) → Type 0 where
  never : {runs : List (Result ℕ ℕ)} → AllFail runs → Once l runs
  last :
      {runs earlier : List (Result ℕ ℕ)} {crc : ℕ}
      → runs ≡ ok 0 ∷ earlier
      → AllFail earlier
      → l.state ≡ running crc
      → l.pending ≡ none
      → Once l runs

startable :
    (l : BpfLoader) (state : LoaderState) {metadata : BpfProgramMetadata}
    → l.state ≡ state
    → execution_metadata l ≡ ok metadata
    → (crc : ℕ) × (l.state ≡ committed crc) × (l.pending ≡ none)
unfolding execution_metadata
startable l (committed crc) e h = (crc, e, ground (arith, e, h))
startable l empty e h = absurd (ground (arith, e, h))
startable l receiving e h = absurd (ground (arith, e, h))
startable l (running crc) e h = absurd (ground (arith, e, h))
startable l (failed status) e h = absurd (ground (arith, e, h))

settled :
    (result : Result ℕ ℕ) (l : BpfLoader) (runs : List (Result ℕ ℕ)) {crc : ℕ}
    → l.state ≡ committed crc
    → l.pending ≡ none
    → AllFail runs
    → Once ((settle_start result l).1) (result ∷ runs)
unfolding mark_running
settled (err status) l runs e quiet fails = never ((λ h. cc h), fails)
settled (ok zero) l runs {crc} e quiet fails =
    last {crc = crc} refl fails (ground (arith, e)) (ground (arith, e, quiet))
settled (ok (suc n)) l runs e quiet fails = never ((λ h. ground (arith, h)), fails)

module _ {E : Type 0} (execute : Executor E) where
  abbrev Recorded : Option (PacketOutcome × Device × (E × List (Result ℕ ℕ))) → Type 0
  Recorded none = Unit
  Recorded (some (outcome, d, (env, runs))) = Once d.loader runs

  unexecuted?-Recorded :
      (env : E) (runs : List (Result ℕ ℕ)) (o : Option (PacketOutcome × Device))
      → AllFail runs
      → Recorded (unexecuted? (env, runs) o)
  unexecuted?-Recorded env runs none fails = tt
  unexecuted?-Recorded env runs (some (outcome, d)) fails = never fails

  on_start-Recorded :
      (request : Request) (d : Device) (env : E) (runs : List (Result ℕ ℕ))
      → AllFail runs
      → Recorded (some (on_start (recorded execute) request d (env, runs)))
  unfolding on_start
  on_start-Recorded request d env runs fails = elim (Result-cases (execution_metadata d.loader)) [
    | inr (status, e) ↦ rw (e, on_start) (never fails)
    | inl (metadata, e) ↦
        let (crc, ready, quiet) = startable d.loader d.loader.state refl e in
        rw (e, on_start)
          (settled (execute metadata d.map_backing env).0 d.loader runs ready quiet fails)
  ]

  kept :
      (d : Device) (env : E × List (Result ℕ ℕ))
      (x : Option (PacketOutcome × Device × (E × List (Result ℕ ℕ))))
      → Once d.loader env.1
      → Keeps d env x
      → Recorded x
  kept d env none v h = tt
  kept d env (some (outcome, d', env')) v (loader_kept, env_kept) =
      subst (λ l. Once l env'.1) (sym loader_kept) (subst (λ x. Once d.loader x.1) (sym env_kept) v)

  dispatch-Recorded :
      (request : Request) (d : Device) (env : E) (runs : List (Result ℕ ℕ))
      → IsRequest request
      → Once d.loader runs
      → Recorded (dispatch_with_bpf_and_executor (recorded execute) request d (env, runs))
  dispatch-Recorded request d env runs r (never fails) =
      dispatch_rule (recorded execute) Recorded request d (env, runs) (λ status. never fails)
        (unexecuted?-Recorded env runs (on_load request d) fails) (never fails)
        (λ long. unexecuted?-Recorded env runs (on_write_map request d) fails)
        (on_start-Recorded request d env runs fails) (never fails) (never fails)
  dispatch-Recorded request d env runs r (last {crc = crc} same fails e quiet) =
      kept d (env, runs) (dispatch_with_bpf_and_executor (recorded execute) request d (env, runs))
        (last same fails e quiet) (running-Keeps (recorded execute) d (env, runs) e quiet request r)

  module _
      (execute_full : (metadata : BpfProgramMetadata) (backing : List ℕ) (env : E)
        → length backing ≡ bpf_max_map_bytes
        → length (execute metadata backing env).1 ≡ bpf_max_map_bytes) where
    serve_all-Once :
        (requests : List Request) (d : Device) (env : E) (runs : List (Result ℕ ℕ))
        → All IsRequest requests
        → IsDevice d
        → Once d.loader runs
        → (d' : Device) × (env' : E) × (runs' : List (Result ℕ ℕ)) × (serve_all
              (recorded execute)
              requests
              d
              (env, runs)
            ≡ some (d', (env', runs')))
          × IsDevice d'
          × Once d'.loader runs'
    unfolding serve_all
    serve_all-Once [] d env runs shaped v once = (d, env, runs, refl, v, once)
    serve_all-Once (request ∷ requests) d env runs (r, shaped) v once =
        let served =
          dispatch-Served (recorded execute)
            (λ metadata backing env. execute_full metadata backing env.0) request d (env, runs) r
            v in
        let done = dispatch-Recorded request d env runs r once in
        elim (Option-cases
          (dispatch_with_bpf_and_executor (recorded execute) request d (env, runs))) [
            | inl e ↦ absurd (subst (Served request) e served)
            | inr ((outcome, d₁, (env₁, runs₁)), e) ↦
                rw (e, serve_all)
                  (serve_all-Once requests d₁ env₁ runs₁ shaped (subst (Served request) e served).1
                    (subst Recorded e done))
          ]

    -- However many requests of the form that parsers deliver a device in order is given with no flash
    -- work between them, there is no panic and at most one run of the program returns zero. It is
    -- then the last run, and the loader says that the program is running, with nothing pending. The
    -- executor is assumed to keep the size of the backing store.
    pub started-Once :
        (requests : List Request) (d : Device) (env : E)
        → All IsRequest requests
        → IsDevice d
        → (d' : Device) × (env' : E) × (runs : List (Result ℕ ℕ)) × (serve_all
              (recorded execute)
              requests
              d
              (env, [])
            ≡ some (d', (env', runs)))
          × IsDevice d'
          × Once d'.loader runs
    started-Once requests d env shaped v = serve_all-Once requests d env [] shaped v (never tt)
