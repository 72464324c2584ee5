-- ===== src/Protocol.antt =====
-- The constants of crates/optibridge-protocol/src/lib.rs: frame sizes, commands, statuses and the
-- geometry of the BPF image.
use opti_bridge.Prelude.{ℕ}

abbrev pub magic : ℕ
magic = 0xa5

abbrev pub header_len : ℕ
header_len = 5

abbrev pub max_payload : ℕ
max_payload = 16

abbrev pub max_frame : ℕ
max_frame = 21

abbrev pub cmd_reset : ℕ
cmd_reset = 0x01

abbrev pub cmd_load_bpf : ℕ
cmd_load_bpf = 0x02

abbrev pub cmd_start_bpf : ℕ
cmd_start_bpf = 0x03

abbrev pub cmd_read_bpf_map : ℕ
cmd_read_bpf_map = 0x04

abbrev pub cmd_write_bpf_map : ℕ
cmd_write_bpf_map = 0x05

abbrev pub cmd_read_status : ℕ
cmd_read_status = 0x06

abbrev pub cmd_query_bpf_crc : ℕ
cmd_query_bpf_crc = 0x07

abbrev pub cmd_i2c_write : ℕ
cmd_i2c_write = 0x10

abbrev pub cmd_i2c_read : ℕ
cmd_i2c_read = 0x11

abbrev pub status_ok : ℕ
status_ok = 0x00

abbrev pub status_bad_command : ℕ
status_bad_command = 0x01

abbrev pub status_bad_length : ℕ
status_bad_length = 0x02

abbrev pub status_bad_flags : ℕ
status_bad_flags = 0x03

abbrev pub status_not_implemented : ℕ
status_not_implemented = 0x04

abbrev pub status_busy : ℕ
status_busy = 0x05

abbrev pub status_bad_state : ℕ
status_bad_state = 0x06

abbrev pub status_bad_crc : ℕ
status_bad_crc = 0x07

abbrev pub status_flash_error : ℕ
status_flash_error = 0x08

abbrev pub status_no_program : ℕ
status_no_program = 0x09

abbrev pub bpf_flash_offset : ℕ
bpf_flash_offset = 0x6000

abbrev pub bpf_flash_size : ℕ
bpf_flash_size = 8192

abbrev pub bpf_header_size : ℕ
bpf_header_size = 16

abbrev pub bpf_max_bytecode : ℕ
bpf_max_bytecode = 7680

abbrev pub bpf_max_maps : ℕ
bpf_max_maps = 8

abbrev pub bpf_map_descriptor_size : ℕ
bpf_map_descriptor_size = 16

abbrev pub bpf_max_map_bytes : ℕ
bpf_max_map_bytes = 1024

abbrev pub map_write_location_size : ℕ
map_write_location_size = 2

abbrev pub max_map_write_bytes : ℕ
max_map_write_bytes = 14
