-- ===== src/Xtask/Sizes.antt =====
-- `report_size` of xtask/src/main.rs: the flash that the two release images take.
pub mod Limits
use Prim.Native.String.{String}
use opti_bridge.Prelude.{
  ℕ, ◌+◌, ◌*◌, ◌^◌, Bool, not, Option, none, some, List, [], ◌∷◌, get_elem?, ltb, if◌then◌else◌,
}
use opti_bridge.Xtask.Text.{Text, from_utf8, lines, split_whitespace, parse_u64}
use opti_bridge.Xtask.Machine.{
  FilePath, join, parent, word, place, Command, Output, Failure, no_root, size_failed, not_utf8,
  no_row, no_text, no_data, bad_number, missing_image, over_limit, size_line, Host, Ending, done,
  panicked, Run, ◌>>=◌, ◌>>◌, ok_or, ensure, or_io_error,
}

abbrev pub optibridge_flash_limit : ℕ
optibridge_flash_limit = 24 * 1024

abbrev pub i2c_bridge_flash_limit : ℕ
i2c_bridge_flash_limit = 32 * 1024

abbrev pub llvm_size : FilePath → Command
llvm_size image = record { program = "llvm-size"; args = place image ∷ []; current_dir = none }

-- `text + data`, which panics beyond 64 bits in the debug build that `cargo xtask` makes.
abbrev pub add_u64 {ℓ} : {S : Type ℓ} → ℕ → ℕ → Run S ℕ
add_u64 a b s = (s, if ltb (a + b) (2 ^ 64) then done (a + b) else panicked)

abbrev pub release_dir : FilePath → FilePath
release_dir root = join (join (join root "target") "riscv32imc-unknown-none-elf") "release"

module _ {ℓ} {S : Type ℓ} where
  -- The text and data sizes of the report's second line.
  unfoldable pub section_sizes : Text → Run S (ℕ × ℕ)
  section_sizes report = do
    row ← ok_or (get_elem? (lines report) 1) no_row
    first ← ok_or (get_elem? (split_whitespace row) 0) no_text
    text ← ok_or (parse_u64 first) bad_number
    second ← ok_or (get_elem? (split_whitespace row) 1) no_data
    data_ ← ok_or (parse_u64 second) bad_number
    λ s. (s, done (text, data_))

module _ {ℓ} {S : Type ℓ} (host : Host S) where
  -- A round of the loop: one image under its limit.
  unfoldable pub report_image : FilePath → String → ℕ → Run S (Unit {0})
  report_image target name flash_limit = do
    (λ s. ensure (host.is_file s (join target name)) (missing_image (join target name)) s)
    output ← (λ s. or_io_error (host.run s (llvm_size (join target name))))
    ensure output.success size_failed
    report ← ok_or (from_utf8 output.stdout) not_utf8
    sizes ← section_sizes report
    flash ← add_u64 sizes.0 sizes.1
    (λ s. (host.print s (size_line name sizes.0 sizes.1 flash), done tt))
    ensure (not (ltb flash_limit flash)) (over_limit name flash_limit)

  -- `manifest_dir` is the directory of the build tool's own manifest.
  unfoldable pub report_size : FilePath → Run S (Unit {0})
  report_size manifest_dir = do
    root ← ok_or (parent manifest_dir) no_root
    report_image (release_dir root) "optibridge" optibridge_flash_limit
    report_image (release_dir root) "i2c-bridge" i2c_bridge_flash_limit
