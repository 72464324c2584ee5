-- ===== src/Tests/Boards.antt =====
-- A device with a committed program of two maps: instances of what its commands do.
use opti_bridge.Prelude.{
  ℕ, zero, suc, ◌+◌, ◌<◌, ◌≤◌, ◌≡◌, ◌↔◌, refl, arith, some, List, [], ◌∷◌, take, replicate, copy_at,
  Result, ok,
}
use opti_bridge.Protocol.{
  bpf_max_map_bytes, max_frame, max_map_write_bytes, header_len, cmd_start_bpf, status_ok,
}
use opti_bridge.Frame.{Request, IsRequest}
use opti_bridge.Frame.Packet.{wire, request_for}
use opti_bridge.Loader.{
  BpfLoader, BpfProgramMetadata, MapLayout, committed, running, new, empty_layout,
}
use opti_bridge.Loader.Maps.{locate, read_map, write_map}
use opti_bridge.Loader.Maps.Access.{InMap, start_of, write_map_iff, write_map_isolated}
use opti_bridge.Loader.Image.Layouts.{IsLaid, IsArray, layout_at}
use opti_bridge.Loader.Image.Invariant.{IsLoader}
use opti_bridge.Dispatch.{Device, response, ready, dispatch_with_bpf_and_executor}
use opti_bridge.Dispatch.Safety.{IsDevice}
use opti_bridge.Dispatch.Safety.Serving.{Served, dispatch-Served}
use opti_bridge.Dispatch.MapCommands.{write_request, read_request, read-write_commands}
use opti_bridge.Dispatch.Lifecycle.{Keeps, running-Keeps}
use opti_bridge.Dispatch.Starts.{serve_all, recorded, Once, started-Once}

abbrev pub two_maps : List MapLayout
two_maps =
    record { offset = 0; len = 8; key_size = 4; value_size = 4 }
    ∷ record { offset = 8; len = 8; key_size = 4; value_size = 4 }
    ∷ replicate 6 empty_layout

two_maps-IsLaid : IsLaid two_maps 2 bpf_max_map_bytes
two_maps-IsLaid = record {
  full = refl;
  count_max = omega arith;
  total_max = omega arith;
  ends = ends;
  ordered = ordered;
  arrays = arrays;
}
  where
    ends :
        (i : ℕ)
        → i < 2
        → (layout_at two_maps i).offset + (layout_at two_maps i).len ≤ bpf_max_map_bytes
    ends zero p = omega arith
    ends (suc zero) p = omega arith
    ends (suc (suc i)) p = absurd (omega arith)

    ordered :
        (i j : ℕ)
        → i < j
        → j < 2
        → (layout_at two_maps i).offset + (layout_at two_maps i).len ≤ (layout_at two_maps j).offset
    ordered zero zero p q = absurd (omega arith)
    ordered zero (suc zero) p q = omega arith
    ordered zero (suc (suc j)) p q = absurd (omega arith)
    ordered (suc i) zero p q = absurd (omega arith)
    ordered (suc i) (suc zero) p q = absurd (omega arith)
    ordered (suc i) (suc (suc j)) p q = absurd (omega arith)

    arrays : (i : ℕ) → i < 2 → IsArray (layout_at two_maps i)
    arrays zero p = record {
      entries = 2;
      nonempty = omega arith;
      keys = refl;
      values = omega arith;
      exact = refl;
    }
    arrays (suc zero) p = record {
      entries = 2;
      nonempty = omega arith;
      keys = refl;
      values = omega arith;
      exact = refl;
    }
    arrays (suc (suc i)) p = absurd (omega arith)

abbrev pub loader : BpfLoader
loader = record new {
  state = committed 7;
  bytecode_len = 8;
  map_count = 2;
  map_layouts = two_maps;
  committed_map_count = 2;
}

loader-IsLoader : IsLoader loader
loader-IsLoader = record {
  laid = two_maps-IsLaid;
  hidden = λ h. absurd (cc);
  transfer = λ h. absurd (cc);
  suits = λ operation h. absurd (cc);
  idle = λ h. refl;
}

abbrev pub backing_store : List ℕ
backing_store = replicate bpf_max_map_bytes 0

abbrev pub board : Device
board = record {
  status_queue = ready;
  loader = loader;
  map_backing = backing_store;
  output = replicate max_frame 0;
}

board-IsDevice : IsDevice board
board-IsDevice = record {
  queue = record { newest_full = refl; newest_bound = omega arith };
  loader = loader-IsLoader;
  backing_full = refl;
  output_full = refl;
}

-- An executor that counts its runs, sets nothing and returns zero.
abbrev counting : BpfProgramMetadata → List ℕ → ℕ → Result ℕ ℕ × List ℕ × ℕ
counting metadata backing runs = (ok 0, backing, runs + 1)

abbrev start_request : Request
start_request = request_for cmd_start_bpf 3 0 []

start_request-IsRequest : IsRequest start_request
start_request-IsRequest = record { payload_full = refl; payload_len_bound = omega arith }

dispatch-Served_example :
    Served start_request (dispatch_with_bpf_and_executor counting start_request board 0)
dispatch-Served_example =
    dispatch-Served counting (λ metadata backing runs full. full) start_request board 0
      start_request-IsRequest board-IsDevice

-- Two Start requests, of which the second is refused.
started-Once_example :
    (d : Device) × (runs : ℕ) × (results : List (Result ℕ ℕ)) × (serve_all
        (recorded counting)
        (start_request ∷ start_request ∷ [])
        board
        (0, [])
      ≡ some (d, (runs, results)))
    × IsDevice d
    × Once (d.loader) results
started-Once_example =
    started-Once counting (λ metadata backing runs full. full) (start_request ∷ start_request ∷ [])
      board 0 (start_request-IsRequest, (start_request-IsRequest, tt)) board-IsDevice

abbrev running_board : Device
running_board = record board { loader = record loader { state = running 7 } }

running-Keeps_example :
    Keeps running_board 1 (dispatch_with_bpf_and_executor counting start_request running_board 1)
running-Keeps_example =
    running-Keeps counting running_board 1 {crc = 7} refl refl start_request start_request-IsRequest

in_second : InMap loader 1 4 2
in_second = record { program = refl; known = omega arith; inside = omega arith }

read-write_commands_example :
    (d₁ d₂ : Device) × (dispatch_with_bpf_and_executor counting
        (write_request 1 1 4 (5 ∷ 6 ∷ []))
        board
        0
      ≡ some (response header_len, d₁, 0))
    × (take header_len d₁.output ≡ wire status_ok 1 0 [])
    × (dispatch_with_bpf_and_executor counting (read_request 2 1 4 2) d₁ 0
        ≡ some (response (header_len + 2), d₂, 0))
    × (take (header_len + 2) d₂.output ≡ wire status_ok 2 0 (5 ∷ 6 ∷ []))
read-write_commands_example =
    read-write_commands board board-IsDevice 1 4 (5 ∷ 6 ∷ []) in_second (omega arith) (omega arith)
      counting 0 1 2

abbrev written : List ℕ
written = copy_at 12 (5 ∷ 6 ∷ []) backing_store

stored : write_map loader 1 4 (5 ∷ 6 ∷ []) backing_store ≡ (ok tt, written)
unfolding write_map locate
stored = refl

write_map_iff_example : (write_map loader 1 4 (5 ∷ 6 ∷ []) backing_store ≡ (ok tt, written)) ↔ (
    InMap loader 1 4 2
    × (0 < 2)
    × (2 ≤ max_map_write_bytes)
    × (written ≡ copy_at (start_of loader 1 4) (5 ∷ 6 ∷ []) backing_store))
write_map_iff_example =
    write_map_iff loader two_maps-IsLaid 1 4 (5 ∷ 6 ∷ []) backing_store written refl

write_map_isolated_example :
    read_map loader 0 4 4 (write_map loader 1 4 (5 ∷ 6 ∷ []) backing_store).1
    ≡ read_map loader 0 4 4 backing_store
write_map_isolated_example =
    write_map_isolated loader two_maps-IsLaid 1 4 (5 ∷ 6 ∷ []) backing_store 0 4 4 refl
      (omega arith)
