-- ===== src/Tests/Suite/Loading.antt =====
-- The unit tests of loading in crates/optibridge-protocol/src/lib.rs, on `FakeFlash`. A
-- definition with the name of a test is what it asserts of a run.
use opti_bridge.Prelude.{
  ℕ, zero, suc, ◌+◌, ◌≡◌, refl, Bool, true, false, Option, none, some, List, [], ◌∷◌, ◌++◌, length,
  take, drop, replicate, copy_at, Result, ok, err, to_le16, to_le32, window,
}
use opti_bridge.Protocol.{
  max_payload, cmd_load_bpf, status_busy, status_bad_length, status_bad_state, status_bad_crc,
  status_flash_error, status_no_program,
}
use opti_bridge.Crc.{crc32_iso_hdlc, crc32_update, crc32_finish}
use opti_bridge.Frame.{Request}
use opti_bridge.Loader.{BpfLoader, new, query, image_len}
use opti_bridge.Loader.Accept.{
  accepts_load, operation, begin_request, data_request, finalize_request,
}
use opti_bridge.Loader.Image.{
  execute_pending, begin, program, finalize, validate_committed, validate_header, validate_image,
  scan, map_layouts, layouts_from, layout_of,
}
use opti_bridge.Tests.Suite.Runs.{empty_request}
use opti_bridge.Tests.Suite.Flash.{FakeFlash, fake_flash, new_flash}

abbrev pub load_request : List ℕ → Request
load_request payload = record empty_request {
  command = cmd_load_bpf;
  payload_len = length payload;
  payload = copy_at 0 payload (replicate max_payload 0);
}

-- What the tests do: a Load BPF request, `execute`, a query, a change of `fail_write`, and a new
-- loader that validates the flash.
pub data Action : Type 0 where
  load : List ℕ → Action
  execute ask reboot : Action
  fail_writes : Bool → Action

-- The results that they look at.
pub data Answer : Type 0 where
  loaded : Result (Unit {0}) ℕ → Answer
  told : Result ℕ ℕ → Answer

-- A run of actions; none is a panic.
unfoldable pub play :
    List Action → BpfLoader → FakeFlash → Option (List Answer × BpfLoader × FakeFlash)
play [] l f = some ([], l, f)
play (load payload ∷ actions) l f = elim (accepts_load l (load_request payload)) [
  | none ↦ none
  | some (l', result) ↦ elim (play actions l' f) [
    | none ↦ none
    | some (answers, l'', f') ↦ some (loaded result ∷ answers, l'', f')
  ]
]
play (execute ∷ actions) l f = let (l', f') = execute_pending fake_flash l f in play actions l' f'
play (ask ∷ actions) l f = elim (play actions l f) [
  | none ↦ none
  | some (answers, l', f') ↦ some (told (query l) ∷ answers, l', f')
]
play (reboot ∷ actions) l f =
    let (l', f') = validate_committed fake_flash new f in play actions l' f'
play (fail_writes b ∷ actions) l f = play actions l (record f { fail_write = b })

-- What a run looks at, and the loader at its end.
abbrev pub answers_of : Option (List Answer × BpfLoader × FakeFlash) → List Answer
answers_of none = []
answers_of (some (answers, l, f)) = answers

abbrev pub loader_of : Option (List Answer × BpfLoader × FakeFlash) → BpfLoader
loader_of none = new
loader_of (some (answers, l, f)) = l

abbrev pub begin_payload : ℕ → ℕ → ℕ → List ℕ
begin_payload bytecode_len map_count crc = 0 ∷ (to_le16 bytecode_len ++ map_count ∷ to_le32 crc)

-- `for (index, data) in image.chunks(12).enumerate()`, with the chunks left and the offset.
abbrev pub data_loads : ℕ → ℕ → List ℕ → List Action
data_loads zero offset image = []
data_loads (suc left) offset image =
    load (1 ∷ (to_le16 offset ++ take 12 image))
    ∷ execute
    ∷ data_loads left (offset + 12) (drop 12 image)

abbrev pub load_image : ℕ → ℕ → List ℕ → List Action
load_image map_count chunks image =
    load (begin_payload 8 map_count (crc32_iso_hdlc image))
    ∷ execute
    ∷ (data_loads chunks 0 image ++ load (2 ∷ []) ∷ execute ∷ [])

-- An array of one entry of one byte.
abbrev descriptor : List ℕ
descriptor = to_le32 1 ++ to_le32 4 ++ to_le32 1 ++ to_le32 1

abbrev loader_commits_valid_image_and_reports_crc_run : List Answer
loader_commits_valid_image_and_reports_crc_run =
    let image = replicate 8 0 ++ descriptor in
    answers_of (
      play
        (load (begin_payload 8 1 (crc32_iso_hdlc image))
          ∷ ask
          ∷ execute
          ∷ (data_loads 2 0 image ++ load (2 ∷ []) ∷ execute ∷ ask ∷ reboot ∷ ask ∷ []))
        new new_flash)

abbrev LoaderCommitsValidImageAndReportsCrc : Type 0
LoaderCommitsValidImageAndReportsCrc =
    let crc = crc32_iso_hdlc (replicate 8 0 ++ descriptor) in
    loader_commits_valid_image_and_reports_crc_run
    ≡ loaded (ok tt)
      ∷ told (err status_busy)
      ∷ loaded (ok tt)
      ∷ loaded (ok tt)
      ∷ loaded (ok tt)
      ∷ told (ok crc)
      ∷ told (ok crc)
      ∷ []

loader_commits_valid_image_and_reports_crc : LoaderCommitsValidImageAndReportsCrc
unfolding play accepts_load operation begin_request data_request finalize_request image_len query
    execute_pending begin program finalize map_layouts layouts_from layout_of window
    validate_committed validate_header validate_image scan crc32_iso_hdlc crc32_update crc32_finish
loader_commits_valid_image_and_reports_crc = refl

abbrev zero_begin : List ℕ
zero_begin = begin_payload 8 0 0

abbrev loader_rejects_invalid_transfer_and_never_commits_partial_image_run : List Answer
loader_rejects_invalid_transfer_and_never_commits_partial_image_run = answers_of (
    play
      (load (begin_payload 7 0 0)
        ∷ load (1 ∷ 0 ∷ 0 ∷ 1 ∷ 2 ∷ [])
        ∷ load zero_begin
        ∷ load zero_begin
        ∷ execute
        ∷ load (1 ∷ 2 ∷ 0 ∷ 1 ∷ 2 ∷ [])
        ∷ load (2 ∷ [])
        ∷ ask
        ∷ [])
      new new_flash)

abbrev LoaderRejectsInvalidTransferAndNeverCommitsPartialImage : Type 0
LoaderRejectsInvalidTransferAndNeverCommitsPartialImage =
    loader_rejects_invalid_transfer_and_never_commits_partial_image_run
    ≡ loaded (err status_bad_length)
      ∷ loaded (err status_bad_state)
      ∷ loaded (ok tt)
      ∷ loaded (err status_busy)
      ∷ loaded (err status_bad_state)
      ∷ loaded (err status_bad_state)
      ∷ told (err status_no_program)
      ∷ []

loader_rejects_invalid_transfer_and_never_commits_partial_image :
    LoaderRejectsInvalidTransferAndNeverCommitsPartialImage
unfolding play accepts_load operation begin_request data_request finalize_request image_len query
    execute_pending begin
loader_rejects_invalid_transfer_and_never_commits_partial_image = refl

abbrev loader_retains_flash_and_crc_failures_for_query_run : List Answer
loader_retains_flash_and_crc_failures_for_query_run = answers_of (
    play
      (load zero_begin
        ∷ fail_writes true
        ∷ execute
        ∷ ask
        ∷ fail_writes false
        ∷ load zero_begin
        ∷ execute
        ∷ load (1 ∷ 0 ∷ 0 ∷ replicate 8 0)
        ∷ execute
        ∷ load (2 ∷ [])
        ∷ execute
        ∷ ask
        ∷ [])
      new new_flash)

abbrev LoaderRetainsFlashAndCrcFailuresForQuery : Type 0
LoaderRetainsFlashAndCrcFailuresForQuery =
    loader_retains_flash_and_crc_failures_for_query_run
    ≡ loaded (ok tt)
      ∷ told (err status_flash_error)
      ∷ loaded (ok tt)
      ∷ loaded (ok tt)
      ∷ loaded (ok tt)
      ∷ told (err status_bad_crc)
      ∷ []

loader_retains_flash_and_crc_failures_for_query : LoaderRetainsFlashAndCrcFailuresForQuery
unfolding play accepts_load operation begin_request data_request finalize_request image_len query
    execute_pending begin program finalize crc32_update crc32_finish
loader_retains_flash_and_crc_failures_for_query = refl

abbrev loader_rejects_invalid_map_definitions_at_finalize_run : List Answer
loader_rejects_invalid_map_definitions_at_finalize_run =
    let image = replicate 8 0 ++ to_le32 2 ++ to_le32 4 ++ to_le32 1 ++ to_le32 1 in
    answers_of (play (load_image 1 2 image ++ ask ∷ []) new new_flash)

abbrev LoaderRejectsInvalidMapDefinitionsAtFinalize : Type 0
LoaderRejectsInvalidMapDefinitionsAtFinalize =
    loader_rejects_invalid_map_definitions_at_finalize_run
    ≡ replicate 4 (loaded (ok tt)) ++ told (err status_bad_state) ∷ []

loader_rejects_invalid_map_definitions_at_finalize : LoaderRejectsInvalidMapDefinitionsAtFinalize
unfolding play accepts_load operation begin_request data_request finalize_request image_len query
    execute_pending begin program finalize map_layouts layouts_from layout_of window crc32_iso_hdlc
    crc32_update crc32_finish
loader_rejects_invalid_map_definitions_at_finalize = refl
