-- ===== src/Tests/Targets.antt =====
-- The target's map helpers and timer, and the bridge: instances.
use opti_bridge.Prelude.{
  Option, ℕ, ◌+◌, ◌*◌, ◌^◌, ◌<◌, ◌≡◌, ◌≢◌, refl, arith, true, false, none, some, List, [], ◌∷◌,
  ◌++◌, length-replicate, replicate, ok, ◌⊎◌, leb, if◌then◌else◌,
}
use opti_bridge.Protocol.{cmd_i2c_read, max_frame, cmd_start_bpf, magic, status_busy}
use opti_bridge.Frame.{Request, IsRequest, parse_packet, push, encode_response}
use opti_bridge.Frame.Packet.{request_for}
use opti_bridge.Loader.{BpfMapMetadata, finalize_op, has_pending}
use opti_bridge.Dispatch.{status_response, respond}
use opti_bridge.Firmware.MapHelpers.{lookup, update}
use opti_bridge.Firmware.MapHelpers.Entries.{HasEntry, InStore, lookup-update}
use opti_bridge.Firmware.Timer.{TimerState, bpf_schedule_timer, poll_timer, take_ready_timer}
use opti_bridge.Firmware.Timer.Events.{
  IsTimer, TimerOperation, schedule, poll, idle, run_all, run_all-IsTimer, schedule_fires,
}
use opti_bridge.Firmware.Events.{
  Firmware, Interpreter, on_i2c_packet, respond_to, transmit, outside,
}
use opti_bridge.Firmware.Events.Interleaving.{Same, on_i2c_packet-Same}
use opti_bridge.Dispatch.Safety.{IsDevice}
use opti_bridge.Firmware.Events
use opti_bridge.Firmware.Events.Boots.{boot, KeepsSize, enters, goes, PoweredOn-serves}
use opti_bridge.Firmware.Events.Rounds.{main_round, wait_for_i2c_bus_idle}
use opti_bridge.Firmware.Events.Rounds.Worked.{IsWorked, main_round-IsWorked}
use opti_bridge.Firmware.Events.Steps.{start, after, polls, InOrder, Reached-InOrder}
use opti_bridge.Bridge.{I2c, handle_request}
use opti_bridge.Bridge.Requests.{Exchange, handle_request-Exchange, FillsBuffer}
use opti_bridge.Tests.Loads.{memory}
use opti_bridge.Tests.Boards.{board, loader}

-- The map of the tests of map_helpers.rs.
abbrev map : BpfMapMetadata
map = record { backing_offset = 4; backing_len = 8; key_size = 4; value_size = 4 }

abbrev backing : List ℕ
backing = replicate 12 0

backing-InStore : InStore map backing
backing-InStore = record { ends = omega arith; addressable = omega arith }

first_entry : HasEntry map 0
first_entry = record { key = refl; inside = omega arith }

lookup-update_example :
    let (result, backing') = update map 0 (1 ∷ 2 ∷ 3 ∷ 4 ∷ []) backing in
    (result ≡ ok tt) × (lookup map 0 backing' ≡ some (1 ∷ 2 ∷ 3 ∷ 4 ∷ []))
lookup-update_example =
    lookup-update map backing 0 (1 ∷ 2 ∷ 3 ∷ 4 ∷ []) backing-InStore first_entry refl

-- A clock of 32,768 ticks a second, as a whole number of ticks for a millisecond.
abbrev ticks : ℕ → ℕ
ticks ms = ms * 32

abbrev quiet_timer : TimerState
quiet_timer = record { generation = 3; pending = none; ready = none }

schedule_fires_example :
    let (result, s') = bpf_schedule_timer ticks 100 10 77 quiet_timer in
    let (event, s'') = take_ready_timer (poll_timer 500 s') in
    (result ≡ 0)
    × ((generation : ℕ) × (0 < generation)
        × (generation < 2 ^ 32)
        × (generation ≢ 3)
        × (event ≡ (
            if leb (100 + ticks 10) 500
            then some (record { generation = generation; cookie = 77 })
            else none)))
    × ((take_ready_timer (poll_timer 500 s'')).0 ≡ none)
schedule_fires_example = schedule_fires ticks 100 500 10 77 quiet_timer (omega arith) (omega arith)

abbrev operations : List TimerOperation
operations = schedule 100 10 77 ∷ poll 500 ∷ []

run_all-IsTimer_example : IsTimer (run_all ticks operations quiet_timer)
run_all-IsTimer_example = run_all-IsTimer ticks operations quiet_timer (idle (omega arith))

abbrev due_timer : TimerState
due_timer = record {
  generation = 4;
  pending = none;
  ready = some (record { generation = 4; cookie = 77 });
}

-- A bus whose state counts its transfers; reads fill with ones.
abbrev pub bus : I2c ℕ
bus = record {
  write = λ n address bytes. (n + 1, some (ok tt));
  read = λ n address count. (n + 1, some (ok (replicate count 1)));
}

-- Two bytes from the device 0x42.
abbrev read_two : Request
read_two = request_for cmd_i2c_read 5 0 (0x42 ∷ 2 ∷ [])

read_two-IsRequest : IsRequest read_two
read_two-IsRequest = record { payload_full = refl; payload_len_bound = omega arith }

pub bus-FillsBuffer : FillsBuffer bus
bus-FillsBuffer s address count s' bytes e = ground (arith, e, length-replicate {A = ℕ} count 1)

handle_request-Exchange_example :
    Exchange bus read_two 0 (handle_request bus read_two (replicate max_frame 0) 0)
handle_request-Exchange_example =
    handle_request-Exchange bus read_two (replicate max_frame 0) 0 bus-FillsBuffer
      read_two-IsRequest refl

-- Programs that return different words and are the same otherwise, as their bytes in flash differ.
abbrev programs : ℕ → Interpreter
programs word metadata context read_only backing timer = (some word, backing, timer)

abbrev target : Firmware
target = record { device = board; active = false; timer = due_timer; reset_pending = false }

Reached-InOrder_example : InOrder outside (record target { timer = poll_timer 9 due_timer })
Reached-InOrder_example =
    Reached-InOrder programs memory {f₀ = target} {s₀ = []} refl (after start (polls 9))

-- A bus that is idle from the third look at it on.
abbrev idle_bus : ℕ → ℕ × ℕ
idle_bus looks = (looks + 1, if leb 2 looks then 0 else 2)

-- A flash operation is pending.
abbrev worker : Firmware
worker = record target {
  device = record board { loader = record loader { pending = some finalize_op } };
}

main_round-IsWorked_example :
    let (looks, quiet) = wait_for_i2c_bus_idle idle_bus 0 in
    let round = main_round (programs 0) memory idle_bus 500 worker [] 0 in
    ((has_pending (worker.device.loader) ≡ true)
      × (quiet ≡ false)
      × (round ≡ some (worker, [], looks)))
    ⊎ (((has_pending (worker.device.loader) ≡ false) ⊎ (quiet ≡ true))
        × ((g : Firmware) × (s' : List ℕ) × (bus : ℕ) × (round ≡ some (g, s', bus))
            × IsWorked programs memory worker [] 0 500 worker [] g s'))
main_round-IsWorked_example =
    main_round-IsWorked programs memory worker [] idle_bus 0 500 worker [] 0 refl start refl

abbrev locked : Firmware
locked = record target { active = true }

-- A Start frame that arrives while a program runs.
abbrev start_frame : List ℕ
start_frame = magic ∷ cmd_start_bpf ∷ 0 ∷ 3 ∷ 0 ∷ []

on_i2c_packet-Same_example :
    (g : Firmware) × (sent : Option (List ℕ)) × (on_i2c_packet (programs 0) start_frame false locked
      ≡ some (g, sent))
    × Same g locked
on_i2c_packet-Same_example = on_i2c_packet-Same (programs 0) start_frame false locked refl

-- It is answered with `STATUS_BUSY`.
abbrev busy_reply : List ℕ
busy_reply = magic ∷ status_busy ∷ 0 ∷ 3 ∷ 0 ∷ []

start_answered :
    on_i2c_packet (programs 0) start_frame false locked
    ≡ some (
      record locked { device = record board { output = busy_reply ++ replicate 16 0 } },
      some busy_reply,
    )
unfolding on_i2c_packet respond_to parse_packet push transmit status_response respond
    encode_response
start_answered = refl

programs-KeepsSize : (word : ℕ) → KeepsSize (programs word)
programs-KeepsSize word metadata context read_only store timer h = h

-- After power-on with an empty partition, and a first poll of the timer.
abbrev booted : Firmware
booted = (boot memory (replicate 64 0)).0

PoweredOn-serves_example :
    IsDevice (booted.device)
    × ((g : Firmware) × (sent : Option (List ℕ)) × (on_i2c_packet
            (programs 0)
            start_frame
            false
            (Events.poll 9 booted)
          ≡ some (g, sent))
        × IsDevice (g.device))
PoweredOn-serves_example =
    PoweredOn-serves programs memory programs-KeepsSize {s₀ = replicate 64 0} 0 start_frame false
      (goes enters (polls 9))
