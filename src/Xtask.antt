-- ===== src/Xtask.antt =====
-- The build tool, xtask/src/main.rs: `main` here, `report_size` in Xtask/Sizes, `generate_hal` in
-- Xtask/Hal. Programs, files and the terminal are the record `Host`; printing has no result, and
-- the error messages' texts are the constructors of `Failure`.
pub mod Text
pub mod Machine
pub mod Sizes
pub mod Hal
use Prim.Native.String.{String}
use opti_bridge.Prelude.{Option, none, some, List, get_elem?, if◌then◌else◌}
use text.Mathlib.Text.{◌==◌ as str_eq}
use opti_bridge.Xtask.Machine.{
  FilePath, Failure, Message, usage, generation_failed, report_failed, Host, Ending, done, failed,
  panicked, Run,
}
use opti_bridge.Xtask.Sizes.{report_size}
use opti_bridge.Xtask.Hal.{generate_hal}

-- `ExitCode`, or the end of the process by a panic.
pub data Exit : Type 0 where
  exit_success exit_failure panic_exit : Exit

module _ {ℓ} {S : Type ℓ} (host : Host S) where
  -- `match command() { Ok(()) => SUCCESS, Err(error) => … }`
  abbrev pub exit_of : (Failure → Message) → S × Ending (Unit {0}) → S × Exit
  exit_of message (s, done ok) = (s, exit_success)
  exit_of message (s, failed e) = (host.print s (message e), exit_failure)
  exit_of message (s, panicked) = (s, panic_exit)

  -- `args` has the program's name first.
  unfoldable pub main : FilePath → List String → S → S × Exit
  main manifest_dir args s = elim (get_elem? args 1) [
    | none ↦ (host.print s usage, exit_failure)
    | some command ↦
        if str_eq command "generate-hal"
        then exit_of generation_failed (generate_hal host manifest_dir s)
        else if str_eq command "size"
        then exit_of report_failed (report_size host manifest_dir s)
        else (host.print s usage, exit_failure)
  ]
