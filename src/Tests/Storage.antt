-- ===== src/Tests/Storage.antt =====
-- A NOR flash that takes every operation, and what the loader leaves in it.
use opti_bridge.Prelude.{
  window, window_list, ℕ, ◌+◌, ◌-◌, ◌≡◌, refl, inl, arith, some, ◌∷◌, ◌++◌, replicate, to_le32, ok,
  length, get_or, leb, ltb, ◌&&◌, if◌then◌else◌, Bool, false,
}
use opti_bridge.Protocol.{bpf_flash_offset}
use opti_bridge.Crc.{crc32_update, crc32_finish}
use opti_bridge.Loader.{
  BpfFlash, BpfLoader, receiving, committed, new, image_len, committed_metadata, begin_op,
}
use opti_bridge.Loader.Accept.{accepts_load, operation, begin_request}
use opti_bridge.Loader.Maps.{has_program}
use opti_bridge.Tests.Loads.{load_request}
use opti_bridge.Loader.Image.{
  execute_pending, begin, validate_committed, validate_header, validate_image, scan, map_layouts,
  layouts_from, layout_of,
}
use opti_bridge.Loader.Image.Nor.{IsNor, Answers}
use opti_bridge.Loader.Image.Nor.Sessions.{
  Session, boots, accepts, executes, Session-Agrees, reboot_finds, reboot_forgets,
}
use opti_bridge.Loader.Image.Invariant.{IsLoader}
use opti_bridge.Loader.Image.Nor.Agrees.{Agrees, body}
use opti_bridge.Loader.Image.Nor.Boot.{scan_ends}
use opti_bridge.Loader.Image.Nor.Loads.{
  Works, IsChunk, joined, feed, load_payloads, cells_of, Committed,
}
use opti_bridge.Loader.Image.Nor.Commits.{load_commits}
use opti_bridge.Loader.{no_layouts}
use opti_bridge.Prelude.{All, List, [], none}
use opti_bridge.Loader.Accept.{is_running}
use opti_bridge.Loader.Image.Invariant.{IsImage}
use opti_bridge.Loader.Image.Nor.{layouts_in}
use opti_bridge.Loader.Image.{layout_of}
use opti_bridge.Tests.Loads.{layouts}

abbrev pub within : ℕ → ℕ → ℕ → Bool
within from to i = leb from i && ltb i to

abbrev pub cells_flash : BpfFlash (ℕ → ℕ)
cells_flash = record {
  read = λ s offset n. (s, ok (window s offset n));
  write = λ s offset bytes. (
    (λ i. if within offset (offset + length bytes) i then get_or bytes (i - offset) 0 else s i),
    ok tt,
  );
  erase = λ s from to. ((λ i. if within from to i then 0xff else s i), ok tt);
}

pub cells_flash-IsNor : IsNor cells_flash (λ s. s)
cells_flash-IsNor = record {
  read_ok = λ s offset n bytes e. cc;
  read_keeps = λ s offset n. refl;
  write_ok = λ s offset bytes fine erased e.
      window_list _ offset bytes (λ i lo hi. ground (arith, lo, hi));
  write_outside = λ s offset bytes i out. ground (arith, out);
  erase_ok = λ s from to i e lo hi. ground (arith, lo, hi);
}

cells_flash-Answers : Answers cells_flash
cells_flash-Answers s offset n = (window s offset n, refl)

-- A partition with a committed image of 8 zero bytes and no maps, in erased flash.
abbrev pub stored : ℕ → ℕ
stored i =
    if within bpf_flash_offset (bpf_flash_offset + 24) i
    then get_or
        (b'O'
          ∷ b'B'
          ∷ b'P'
          ∷ b'F'
          ∷ 1
          ∷ 0
          ∷ 8
          ∷ 0
          ∷ (to_le32 1696784233 ++ 0 ∷ 0 ∷ 0xff ∷ 0xff ∷ replicate 8 0))
        (i - bpf_flash_offset) 0
    else 0xff

abbrev pub booted : BpfLoader × (ℕ → ℕ)
booted = validate_committed cells_flash new stored

pub stored_state : (booted.0).state ≡ committed 1696784233
unfolding validate_committed validate_header validate_image scan map_layouts layouts_from layout_of
    window crc32_update image_len crc32_finish
stored_state = refl

reboot_finds_example :
    let again = (validate_committed cells_flash new booted.1).0 in
    (again.state ≡ committed 1696784233)
    × (again.map_layouts ≡ (booted.0).map_layouts)
    × (committed_metadata again ≡ committed_metadata (booted.0))
reboot_finds_example =
    reboot_finds cells_flash-IsNor {l = booted.0} {s = booted.1} 1696784233 (boots stored)
      cells_flash-Answers (inl stored_state)

abbrev blank : BpfLoader × (ℕ → ℕ)
blank = validate_committed cells_flash new (λ i. 0xff)

abbrev asked : BpfLoader
asked = record (blank.0) { pending = some (begin_op 8 0 5) }

asked_accepted : accepts_load (blank.0) load_request ≡ some (asked, ok tt)
unfolding accepts_load operation begin_request image_len validate_committed validate_header window
asked_accepted = refl

abbrev begun : BpfLoader × (ℕ → ℕ)
begun = execute_pending cells_flash asked (blank.1)

begun-Session : Session cells_flash (begun.0) (begun.1)
begun-Session = executes (accepts load_request (boots (λ i. 0xff)) (omega arith) asked_accepted)

begun_state : (begun.0).state ≡ receiving
unfolding execute_pending begin image_len validate_committed validate_header window
begun_state = refl

Session-Agrees_example : IsLoader (begun.0) × Agrees (begun.0) (begun.1)
Session-Agrees_example = Session-Agrees cells_flash-IsNor {l = begun.0} {s = begun.1} begun-Session

reboot_forgets_example :
    has_program ((validate_committed cells_flash new (begun.1)).0).state ≡ false
reboot_forgets_example =
    reboot_forgets cells_flash-IsNor {l = begun.0} {s = begun.1} begun-Session begun_state

scan_ends_example :
    (scan cells_flash 8 8 0 0xffff_ffff stored).1
    ≡ ok (crc32_update 0xffff_ffff (window stored body 8))
scan_ends_example =
    scan_ends cells_flash cells_flash-IsNor 8 8 0xffff_ffff stored cells_flash-Answers (omega arith)

pub cells_flash-Works : Works cells_flash
cells_flash-Works = record {
  answers = cells_flash-Answers;
  writes = λ s offset bytes. refl;
  erases = λ s from to. refl;
}

-- The image of Tests/Loads, in three chunks.
abbrev chunks : List (List ℕ)
chunks = replicate 8 0 ∷ (to_le32 1 ++ to_le32 4 ++ to_le32 4) ∷ to_le32 2 ∷ []

chunks-IsChunk : All IsChunk chunks
chunks-IsChunk = (
  record { bytes = omega arith; some_bytes = omega arith; few_bytes = omega arith; even = refl },
  (
    record { bytes = omega arith; some_bytes = omega arith; few_bytes = omega arith; even = refl },
    (
      record {
        bytes = omega arith;
        some_bytes = omega arith;
        few_bytes = omega arith;
        even = refl;
      },
      tt,
    ),
  ),
)

chunks_sum : crc32_finish (crc32_update 0xffff_ffff (joined chunks)) ≡ 552380095
unfolding joined crc32_update crc32_finish
chunks_sum = refl

chunks_laid : layouts_in (cells_of (joined chunks)) 8 1 0 0 no_layouts ≡ some layouts
unfolding joined layouts_in layout_of window
chunks_laid = refl

chunks_size : length (joined chunks) ≡ 24
unfolding joined
chunks_size = refl

blank_quiet : ((blank.0).pending ≡ none) × (is_running ((blank.0).state) ≡ false)
unfolding validate_committed validate_header window
blank_quiet = (refl, refl)

one_map-IsImage : IsImage 8 1
one_map-IsImage = record {
  nonempty = omega arith;
  bytecode_max = omega arith;
  aligned = refl;
  maps_max = omega arith;
  total_max = omega arith;
}

load_commits_example :
    (l' : BpfLoader) × (s' : ℕ → ℕ) × (feed cells_flash
        (load_payloads 8 1 552380095 chunks)
        (blank.0)
        (blank.1)
      ≡ some (l', s'))
    × Committed 8 1 552380095 layouts l'
    × (((validate_committed cells_flash new s').0).state ≡ committed 552380095)
    × (((validate_committed cells_flash new s').0).map_layouts ≡ layouts)
load_commits_example =
    load_commits cells_flash-IsNor cells_flash-Works chunks 8 1 552380095 layouts (blank.0)
      (blank.1) (boots (λ i. 0xff)) (blank_quiet.0) (blank_quiet.1) one_map-IsImage (omega arith)
      chunks-IsChunk chunks_size chunks_sum chunks_laid
