-- ===== src/Lib.antt =====
-- OptiBridge: a CH32 microcontroller that runs a BPF program, loaded and commanded over I2C, and a USB
-- to I2C bridge for a host. This is a model of its Rust code and of what makes it correct.
--
-- Parts and files. A file models the functions of the same name; a function that takes `&mut self`
-- returns the new value beside its result, a panic is `none`, and an early return is an `if` or a
-- `Result`.
-- - Protocol, Frame, Crc: the constants, `Request`, `Parser`, `parse_packet`, `encode_response` and the
--   CRC-32 of crates/optibridge-protocol/src/lib.rs. Frame/Stream has a specification of the parser on
--   the list of bytes held; Frame/Packet the grammar of captures that `parse_packet` accepts.
-- - Loader: `BpfLoader` of the same file. Loader/Accept is `accepts_load`, which an interrupt calls and
--   which only leaves an operation pending; Loader/Image is `execute_pending` and `validate_committed`,
--   which the main loop calls with the flash; Loader/Maps is `read_map` and `write_map`. The trait
--   `BpfFlash` is a record of operations on an unknown state, and the theorems hold for all of them but
--   in Loader/Image/Nor: there the hypothesis `IsNor` says what the documentation of NOR flash says of
--   reads, erases and writes to erased cells; the flash of the repository's unit tests satisfies it
--   (Tests/Suite/Flash), and so does that of Tests/Storage. A session there is what happens between two
--   boots. Power is cut between operations, and in Loader/Image/Nor/PowerCuts at any call of the flash
--   within one. Loader/Image/Partition takes as a predicate what erases and writes within the partition
--   keep.
-- - Dispatch: `StatusQueue` and the dispatchers of the same file. `dispatch_with_bpf_and_executor` takes
--   a request, the device (status queue, loader, backing store, output) and an executor, which is a
--   parameter with an environment of its own. Dispatch/Starts is a sequence of requests with no flash
--   work between them.
-- - Firmware: firmware/optibridge/src. Firmware/MapHelpers is map_helpers.rs; Firmware/Pointers the map
--   helpers of main.rs that a BPF program calls with addresses, and the regions that
--   `execute_loaded_bpf` builds for the interpreter, on a memory of bytes by address in which the
--   backing store has the address that the linker gave it; Firmware/Timer the timer functions of
--   main.rs; Firmware/Events is `on_i2c_packet` and `execute_timer_event`, and Firmware/Events/Steps
--   puts the interrupt between the critical sections of the main loop; a whole round of that loop is in
--   Firmware/Events/Rounds, and power-on in Firmware/Events/Boots. Each step has an interpreter of its
--   own, since a run also depends on the bytes that are then in flash and on the clock.
-- - Bridge: `handle_request` of firmware/i2c-bridge/src/main.rs, with `validate_i2c_request` of the
--   protocol crate. Bridge/Sessions is the loop of `main` there over the packets of a terminal, which
--   `read_packet` puts into a buffer of 21 bytes; in Bridge/Sessions/Packets the hypothesis `IsSending`
--   says of a terminal that it holds DTR and sends given packets, and of `read_packet` that a packet
--   longer than the buffer is an error, as its documentation has it.
-- - Xtask: xtask/src/main.rs, the build tool: `report_size` in Xtask/Sizes and `generate_hal` in
--   Xtask/Hal, with Rust's text functions in Xtask/Text.
-- - Prelude has the shared lists, slices, words, results and bit laws; Tests the instances of the
--   theorems, and in Tests/Suite the unit tests of the protocol crate and of map_helpers.rs, each as a
--   proposition on a run of the model, with a proof under the name of the test.
--
-- How the parts meet: a frame is parsed by Frame, its request goes to Dispatch, which calls Loader; the
-- main loop of Firmware does the flash work that Loader left pending, and runs the program for a timer
-- event, while packets that arrive are answered busy.
--
-- Numbers are natural numbers. A u8, u16 or u32 keeps its wrap-around where the code casts or adds in
-- the word; `usize` has 32 bits. Loops are recursion on the rounds left. `scan`, the loop of
-- `validate_committed`, has the length of the image as fuel, which is enough since a round reads at
-- least one byte. The loops of the bridge that run until DTR changes take the number of polls or rounds
-- as an argument, and what is said of them holds for any number.
--
-- Parameters, since their code is not in the repository: the flash driver (`BpfFlash`), the interpreter
-- of sonde_bpf (`Interpreter`, or the executor of Dispatch), the I2C driver with the DTR line (`I2c`),
-- the USB driver (`Cdc`), the status register of the I2C slave (`star2`), the clock (`now`,
-- `from_millis`), and the files, programs and terminal of the build tool (`Host`).
--
-- Not modelled: the set-up of clocks, pins and USB and the transmit queue, which are hardware; the table
-- of helper descriptors in `execute_loaded_bpf`; the texts of the build tool's messages; the build
-- scripts and the host's Python scripts. A request's `payload_len` and `payload` are public in the code;
-- a request that slices beyond its payload panics there and is `none` here. An interpreter is a total
-- function, for runs that return: `execute_loaded_bpf` gives the interpreter no budget, and of a
-- program that does not return only the packets that arrive meanwhile are in the model.
pub mod Prelude
pub mod Protocol
pub mod Frame
pub mod Crc
pub mod Loader
pub mod Dispatch
pub mod Firmware
pub mod Bridge
pub mod Xtask
pub mod Tests
