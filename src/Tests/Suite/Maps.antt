-- ===== src/Tests/Suite/Maps.antt =====
-- The unit test of Read and Write BPF map in crates/optibridge-protocol/src/lib.rs.
use opti_bridge.Prelude.{
  ℕ, suc, zero, ◌+◌, ◌≡◌, refl, Option, none, some, List, [], ◌∷◌, ◌++◌, replicate, copy_at, Result,
  ok, err, to_le32, window,
}
use opti_bridge.Protocol.{
  magic, max_payload, max_map_write_bytes, cmd_read_bpf_map, cmd_write_bpf_map, cmd_read_status,
  cmd_start_bpf, status_ok, status_bad_length, status_bad_command, status_bad_flags,
  status_no_program, status_not_implemented,
}
use opti_bridge.Crc.{crc32_iso_hdlc, crc32_update, crc32_finish}
use opti_bridge.Frame.{Request, encode_response}
use opti_bridge.Loader.{
  BpfLoader, new, query, image_len, execution_metadata, committed_metadata, fill_maps,
}
use opti_bridge.Loader.Accept.{
  accepts_load, operation, begin_request, data_request, finalize_request,
}
use opti_bridge.Loader.Image.{
  execute_pending, begin, program, finalize, map_layouts, layouts_from, layout_of,
  validate_committed, validate_header, validate_image, scan,
}
use opti_bridge.Loader.Maps.{locate, read_map, write_map}
use opti_bridge.Dispatch.{
  Device, response, respond, dispatch, dispatch_with_bpf, dispatch_with_bpf_and_executor,
  on_read_map, on_write_map, on_start, on_other,
}
use opti_bridge.Tests.Suite.Runs.{empty_request, Seen, device_of, blank_backing, bpf_dispatch_all}
use opti_bridge.Tests.Suite.Dispatching.{bare, readied}
use opti_bridge.Tests.Suite.Flash.{new_flash}
use opti_bridge.Tests.Suite.Loading.{
  Answer, loaded, told, ask, reboot, play, answers_of, loader_of, load_image,
}
use opti_bridge.Tests.Suite.Starting.{seen_of}

-- The numbers from one on, as many as the second.
abbrev count_from : ℕ → ℕ → List ℕ
count_from n zero = []
count_from n (suc left) = n ∷ count_from (n + 1) left

-- Eight bytes of bytecode, an array of four values of two bytes and one of eight of four.
abbrev image : List ℕ
image =
    replicate 8 0
    ++ to_le32 1
    ++ to_le32 4
    ++ to_le32 2
    ++ to_le32 4
    ++ to_le32 1
    ++ to_le32 4
    ++ to_le32 4
    ++ to_le32 8

abbrev committed_answers_run : List Answer
committed_answers_run = answers_of (play (load_image 2 4 image ++ reboot ∷ ask ∷ []) new new_flash)

abbrev loader : BpfLoader
loader = loader_of (play (load_image 2 4 image ++ reboot ∷ []) new new_flash)

abbrev original_backing : List ℕ
original_backing = copy_at 0 (count_from 0 40) blank_backing

abbrev device_at : Option (List Seen × Device) → Device
device_at none = device_of new []
device_at (some (answers, d)) = d

-- The request that the test changes from one call to the next.
abbrev overwrite : ℕ → List ℕ → Request → Request
overwrite at bytes request = record request { payload = copy_at at bytes request.payload }

abbrev read_request : Request
read_request =
    overwrite 0 (1 ∷ 12 ∷ 0 ∷ 16 ∷ [])
      (record empty_request { command = cmd_read_bpf_map; sequence = 9; payload_len = 4 })

abbrev write_request : Request
write_request =
    overwrite 0 (12 ∷ 4 ∷ count_from 0xa0 14)
      (record read_request { command = cmd_write_bpf_map; payload_len = 16 })

abbrev reread_request : Request
reread_request =
    overwrite 0 (1 ∷ 12 ∷ 0 ∷ 16 ∷ [])
      (record write_request { command = cmd_read_bpf_map; payload_len = 4 })

abbrev short_write : Request
short_write = record reread_request { command = cmd_write_bpf_map; payload_len = 2 }

abbrev reserved_write : Request
reserved_write = overwrite 0 (0 ∷ 0x20 ∷ 1 ∷ []) (record short_write { payload_len = 3 })

abbrev overrunning_write : Request
overrunning_write = overwrite 0 (31 ∷ 4 ∷ 1 ∷ 2 ∷ []) (record reserved_write { payload_len = 4 })

abbrev unknown_map_write : Request
unknown_map_write = overwrite 0 (0 ∷ 8 ∷ 1 ∷ 2 ∷ []) overrunning_write

abbrev flagged_write : Request
flagged_write = overwrite 0 (0 ∷ 0 ∷ 1 ∷ []) (record unknown_map_write { flags = 1 })

abbrev flagged_read : Request
flagged_read =
    overwrite 0 (1 ∷ 12 ∷ 0 ∷ 16 ∷ []) (record flagged_write { command = cmd_read_bpf_map })

abbrev plain_read : Request
plain_read = record flagged_read { flags = 0 }

abbrev outside_read : Request
outside_read = overwrite 1 (0xff ∷ 0xff ∷ 1 ∷ []) plain_read

abbrev unloaded_read : Request
unloaded_read = overwrite 1 (0 ∷ 0 ∷ 1 ∷ []) outside_read

abbrev first_read : Option (List Seen × Device)
first_read = bpf_dispatch_all (read_request ∷ []) (device_of loader original_backing)

abbrev first_write : Option (List Seen × Device)
first_write = bpf_dispatch_all (write_request ∷ []) (device_at first_read)

abbrev bad_writes : Option (List Seen × Device)
bad_writes =
    bpf_dispatch_all
      (reread_request ∷ short_write ∷ reserved_write ∷ overrunning_write ∷ unknown_map_write ∷ [])
      (device_at first_write)

abbrev bad_reads : Option (List Seen × Device)
bad_reads =
    bpf_dispatch_all
      (flagged_write
        ∷ flagged_read
        ∷ record plain_read { payload_len = 3 }
        ∷ overwrite 3 (0 ∷ []) plain_read
        ∷ overwrite 3 (17 ∷ []) plain_read
        ∷ overwrite 0 (2 ∷ []) plain_read
        ∷ overwrite 1 (31 ∷ 0 ∷ 2 ∷ []) plain_read
        ∷ outside_read
        ∷ [])
      (device_at bad_writes)

abbrev unloaded : Option (List Seen × Device)
unloaded = bpf_dispatch_all (unloaded_read ∷ []) (record (device_at bad_reads) { loader = new })

abbrev others : Option (List Seen × Device)
others =
    let request = record unloaded_read { command = cmd_read_status; payload_len = 0 } in
    bpf_dispatch_all (request ∷ record request { command = cmd_start_bpf } ∷ [])
      (record (device_at unloaded) { loader = loader })

-- What the test looks at: the answers to the requests in their order, the backing store on the way,
-- and what it calls on the loader itself.
record Looks : Type 0 where
  answers : List (Option (List Seen))
  backings : List (List ℕ)
  reads : List (Result (List ℕ) ℕ)
  writes : List (Result (Unit {0}) ℕ × List ℕ)

abbrev read_bpf_map_returns_committed_backing_ranges_and_errors_run : Looks
read_bpf_map_returns_committed_backing_ranges_and_errors_run =
    let backing = (device_at bad_writes).map_backing in
    record {
      answers =
          seen_of first_read
          ∷ seen_of first_write
          ∷ seen_of bad_writes
          ∷ seen_of bad_reads
          ∷ seen_of unloaded
          ∷ seen_of others
          ∷ [];
      backings =
          (device_at first_read).map_backing ∷ (device_at first_write).map_backing ∷ backing ∷ [];
      reads =
          read_map loader 1 0 0 original_backing
          ∷ read_map loader 1 0 (max_payload + 1) original_backing
          ∷ [];
      writes =
          write_map (device_at bad_writes).loader 1 0 [] backing
          ∷ write_map (device_at bad_writes).loader 1 0 (replicate (max_map_write_bytes + 1) 0)
              backing
          ∷ write_map new 0 0 (1 ∷ []) backing
          ∷ [];
    }

abbrev updated_backing : List ℕ
updated_backing = copy_at 20 (count_from 0xa0 14) original_backing

abbrev read_back : List ℕ → Seen
read_back bytes = (response 21, magic ∷ status_ok ∷ 16 ∷ 9 ∷ 0 ∷ bytes)

abbrev CommittedAnswers : Type 0
CommittedAnswers =
    committed_answers_run ≡ replicate 6 (loaded (ok tt)) ++ told (ok (crc32_iso_hdlc image)) ∷ []

committed_answers : CommittedAnswers
unfolding play accepts_load operation begin_request data_request finalize_request image_len query
    execute_pending begin program finalize map_layouts layouts_from layout_of window
    validate_committed validate_header validate_image scan crc32_iso_hdlc crc32_update crc32_finish
committed_answers = refl

abbrev ReadBpfMapReturnsCommittedBackingRangesAndErrors : Type 0
ReadBpfMapReturnsCommittedBackingRangesAndErrors =
    read_bpf_map_returns_committed_backing_ranges_and_errors_run ≡ record {
      answers =
          some (read_back (count_from 20 16) ∷ [])
          ∷ some (bare status_ok 9 ∷ [])
          ∷ some (
              read_back (count_from 0xa0 14 ++ 34 ∷ 35 ∷ [])
              ∷ bare status_bad_length 9
              ∷ bare status_bad_length 9
              ∷ bare status_bad_length 9
              ∷ bare status_bad_command 9
              ∷ [])
          ∷ some (
              bare status_bad_flags 9
              ∷ bare status_bad_flags 9
              ∷ bare status_bad_length 9
              ∷ bare status_bad_length 9
              ∷ bare status_bad_length 9
              ∷ bare status_bad_command 9
              ∷ bare status_bad_length 9
              ∷ bare status_bad_length 9
              ∷ [])
          ∷ some (bare status_no_program 9 ∷ [])
          ∷ some (readied 9 ∷ bare status_not_implemented 9 ∷ [])
          ∷ [];
      backings = original_backing ∷ updated_backing ∷ updated_backing ∷ [];
      reads = err status_bad_length ∷ err status_bad_length ∷ [];
      writes =
          (err status_bad_length, updated_backing)
          ∷ (err status_bad_length, updated_backing)
          ∷ (err status_no_program, updated_backing)
          ∷ [];
    }

read_bpf_map_returns_committed_backing_ranges_and_errors :
    ReadBpfMapReturnsCommittedBackingRangesAndErrors
unfolding play accepts_load operation begin_request data_request finalize_request image_len query
    execute_pending begin program finalize map_layouts layouts_from layout_of window
    validate_committed validate_header validate_image scan crc32_iso_hdlc crc32_update crc32_finish
    bpf_dispatch_all dispatch_with_bpf dispatch_with_bpf_and_executor on_read_map on_write_map
    on_start on_other dispatch locate read_map write_map respond encode_response execution_metadata
    committed_metadata fill_maps
read_bpf_map_returns_committed_backing_ranges_and_errors = refl
