-- ===== src/Xtask/Sizes/Limits.antt =====
-- When the size check of xtask/src/main.rs passes.
use Prim.Native.String.{String}
use opti_bridge.Prelude.{
  ℕ, ◌+◌, ◌^◌, ◌≤◌, ◌<◌, ◌≡◌, refl, ◌↔◌, some, true, ok, ltb, if◌then◌else◌, arith, get_elem?, List,
}
use opti_bridge.Xtask.{main, exit_success}
use opti_bridge.Xtask.Text.{Text, from_utf8}
use opti_bridge.Xtask.Text.Rows.{IsReport, IsReport-row, parse_u64-value, value}
use opti_bridge.Xtask.Machine.{FilePath, join, parent, size_line, Host, done, failed, over_limit}
use opti_bridge.Xtask.Sizes.{
  optibridge_flash_limit, i2c_bridge_flash_limit, llvm_size, section_sizes, report_image,
  release_dir, report_size,
}

-- The sizes in a report of llvm-size are the numbers that its second line starts with.
section_sizes-IsReport {ℓ} :
    {S : Type ℓ} {report text data_ : Text} (s : S)
    → IsReport report text data_
    → value text < 2 ^ 64
    → value data_ < 2 ^ 64
    → section_sizes report s ≡ (s, done (value text, value data_))
unfolding section_sizes
section_sizes-IsReport {text} {data_} s r small_text small_data =
    let (row, second, first_field, second_field) = IsReport-row r in
    rw
      (
        section_sizes,
        second,
        first_field,
        second_field,
        parse_u64-value text r.text_some r.text_digits small_text,
        parse_u64-value data_ r.data_some r.data_digits small_data,
      )
      refl

-- An image in place, of which llvm-size reports two sizes whose sum has 64 bits.
pub record Measured {ℓ} {S : Type ℓ} (host : Host S) (image : FilePath) (s : S) (text data_ : ℕ)
    : Type ℓ where
  pub stdout : List ℕ
  pub report : Text
  pub text_field : Text
  pub data_field : Text
  pub present : host.is_file s image ≡ true
  pub ran : (host.run s (llvm_size image)).1 ≡ ok record { success = true; stdout = stdout }
  pub decoded : from_utf8 stdout ≡ some report
  pub fields : IsReport report text_field data_field
  pub text_value : value text_field ≡ text
  pub data_value : value data_field ≡ data_
  pub bounded : text + data_ < 2 ^ 64

-- The state after a round for an image.
abbrev pub reported {ℓ} : {S : Type ℓ} → Host S → FilePath → String → ℕ → ℕ → S → S
reported host target name text data_ s =
    host.print (host.run s (llvm_size (join target name))).0
      (size_line name text data_ (text + data_))

report_image-Measured {ℓ} :
    {S : Type ℓ} (host : Host S) (target : FilePath) (name : String) (flash_limit text data_ : ℕ)
    (s : S)
    → Measured host (join target name) s text data_
    → report_image host target name flash_limit s ≡ (
      reported host target name text data_ s,
      if ltb flash_limit (text + data_) then failed (over_limit name flash_limit) else done tt,
    )
unfolding report_image
report_image-Measured host target name flash_limit text data_ s m =
    let small : ltb (text + data_) (2 ^ 64) ≡ true = ground (arith, m.bounded) in
    let sizes =
      section_sizes-IsReport (host.run s (llvm_size (join target name))).0 m.fields
        (omega (arith, m.text_value, m.bounded)) (omega (arith, m.data_value, m.bounded)) in
    ground (arith, m.present, m.ran, m.decoded, sizes, m.text_value, m.data_value, small)

-- The size check exits with success exactly when each image takes no more flash than its limit, of
-- images that are in place and that llvm-size reports on.
pub main_size_iff {ℓ} :
    {S : Type ℓ} (host : Host S) (manifest_dir root : FilePath) (args : List String) (s : S)
    (text data_ text' data' : ℕ)
    → parent manifest_dir ≡ some root
    → get_elem? args 1 ≡ some "size"
    → Measured host (join (release_dir root) "optibridge") s text data_
    → Measured host
        (join (release_dir root) "i2c-bridge")
        (reported host (release_dir root) "optibridge" text data_ s)
        text'
        data'
    → ((main host manifest_dir args s).1 ≡ exit_success)
      ↔ ((text + data_ ≤ optibridge_flash_limit) × (text' + data' ≤ i2c_bridge_flash_limit))
unfolding main report_size
main_size_iff host manifest_dir root args s text data_ text' data' above asked first second =
    let target = release_dir root in
    ground (
      arith,
      asked,
      above,
      report_image-Measured host target "optibridge" optibridge_flash_limit text data_ s first,
      report_image-Measured host target "i2c-bridge" i2c_bridge_flash_limit text' data'
          (reported host target "optibridge" text data_ s) second,
    )
