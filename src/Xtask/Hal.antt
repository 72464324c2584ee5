-- ===== src/Xtask/Hal.antt =====
-- `generate_hal` and `download` of xtask/src/main.rs: the sources of the hardware abstraction.
pub mod Log
pub mod Order
use Prim.Native.String.{String}
use opti_bridge.Prelude.{
  Bool, true, false, not, Option, none, some, List, [], ◌∷◌, ◌++◌, map, if◌then◌else◌,
}
use opti_bridge.Xtask.Machine.{
  FilePath, join, parent, word, place, Command, Failure, no_root, not_cloned, not_selected,
  not_generated, not_downloaded, invalid_source_path, Host, Ending, done, Run, ◌>>=◌, ◌>>◌, ok_or,
  ensure, or_io_error,
}

abbrev pub hair_repository : String
hair_repository = "https://github.com/Alan-Jowett/HardwareAbstractionIR.git"

abbrev pub hair_revision : String
hair_revision = "60e0de038210008018d0168f45854d113a5964cc"

abbrev pub hair_input_url : String
hair_input_url =
    "https://raw.githubusercontent.com/Alan-Jowett/HardwareAbstractionIR/60e0de038210008018d0168f45854d113a5964cc/evidence/wch/ch32v203g6u6/hair.json"

abbrev pub fetch : String → FilePath → Command
fetch url destination = record {
  program = "curl";
  args =
      map word ("--fail" ∷ "--location" ∷ "--silent" ∷ "--show-error" ∷ url ∷ "--output" ∷ [])
      ++ place destination ∷ [];
  current_dir = none;
}

abbrev pub clone_to : FilePath → Command
clone_to source = record {
  program = "git";
  args = map word ("clone" ∷ "--quiet" ∷ hair_repository ∷ []) ++ place source ∷ [];
  current_dir = none;
}

abbrev pub checkout_in : String → Command
checkout_in source = record {
  program = "git";
  args = map word ("-C" ∷ source ∷ "checkout" ∷ "--quiet" ∷ hair_revision ∷ []);
  current_dir = none;
}

abbrev pub generate_from : FilePath → FilePath → FilePath → Command
generate_from source input generated = record {
  program = "cargo";
  args =
      map word ("run" ∷ "--quiet" ∷ "--locked" ∷ "--manifest-path" ∷ [])
      ++ place (join source "Cargo.toml")
        ∷ (map word ("--" ∷ "generate" ∷ "embassy" ∷ [])
            ++ place input ∷ word "--output-dir" ∷ place (join generated "embassy") ∷ []);
  current_dir = some source;
}

abbrev pub generated_dir : FilePath → FilePath
generated_dir root = join (join root ".generated") "ch32v203g6u6"

abbrev pub source_dir : FilePath → FilePath
source_dir root = join (join root ".generated") "hardware-abstraction-ir"

module _ {ℓ} {S : Type ℓ} (host : Host S) where
  -- `Command::…status()?` with the test of its success.
  abbrev pub must_succeed : Command → Failure → Run S (Unit {0})
  must_succeed command e = do
    output ← (λ s. or_io_error (host.run s command))
    ensure output.success e

  unfoldable pub download : String → FilePath → Run S (Unit {0})
  download url destination = must_succeed (fetch url destination) (not_downloaded url)

  abbrev pub clone_if_missing : FilePath → Run S (Unit {0})
  clone_if_missing source s = elim (host.is_file s (join source "Cargo.toml")) [
    | true ↦ (s, done tt)
    | false ↦ must_succeed (clone_to source) not_cloned s
  ]

  unfoldable pub generate_hal : FilePath → Run S (Unit {0})
  generate_hal manifest_dir = do
    root ← ok_or (parent manifest_dir) no_root
    (λ s. or_io_error (host.create_dir_all s (generated_dir root)))
    download hair_input_url (join (generated_dir root) "hair.json")
    clone_if_missing (source_dir root)
    source ← ok_or (host.to_str (source_dir root)) invalid_source_path
    must_succeed (checkout_in source) not_selected
    must_succeed
        (generate_from (source_dir root) (join (generated_dir root) "hair.json")
          (generated_dir root))
        not_generated
