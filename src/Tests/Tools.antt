-- ===== src/Tests/Tools.antt =====
-- The build tool on machines that answer every call.
use Prim.Native.Char.{code}
use Prim.Native.String.{String}
use opti_bridge.Prelude.{
  ℕ, ◌≤◌, ◌≡◌, refl, ◌↔◌, true, some, none, List, [], ◌∷◌, ok, arith, get_elem?, ◌++◌,
}
use opti_bridge.Xtask.{main, exit_success}
use opti_bridge.Xtask.Text.{from_utf8, lines_from, digits_from, parse_u64}
use opti_bridge.Xtask.Text.Rows.{IsReport}
use opti_bridge.Xtask.Machine.{FilePath, Host, done}
use opti_bridge.Xtask.Sizes.{release_dir, optibridge_flash_limit, i2c_bridge_flash_limit}
use opti_bridge.Xtask.Sizes.Limits.{Measured, main_size_iff}
use opti_bridge.Xtask.Hal.{generate_hal}
use opti_bridge.Xtask.Hal.Log.{Guarded, recorded, ran, generate_in}
use opti_bridge.Xtask.Hal.Order.{generate_hal-Guarded}

abbrev codes : String → List ℕ
codes String.[] = []
codes (String.◌∷◌ c s) = code c ∷ codes s

abbrev report : List ℕ
report = codes "text\tdata\tbss\n20000\t4000\t9\n"

-- Each image has the sizes 20,000 and 4,000.
abbrev machine : Host (Unit {0})
machine = record {
  is_file = λ s path. true;
  create_dir_all = λ s path. (s, ok tt);
  run = λ s command. (s, ok record { success = true; stdout = report });
  print = λ s message. s;
  to_str = λ path. some "source";
}

fields : IsReport report (codes "20000") (codes "4000")
fields = record {
  header = codes "text\tdata\tbss";
  blanks = [];
  after_text = b'\t';
  gap = [];
  after_data = b'\t';
  tail = codes "9";
  rest = [];
  shape = refl;
  header_line = omega arith;
  row_line = omega arith;
  blanks_blank = tt;
  text_some = cc;
  text_digits = omega arith;
  after_text_blank = refl;
  gap_blank = tt;
  data_some = cc;
  data_digits = omega arith;
  after_data_blank = refl;
}

measured : (image : FilePath) → Measured machine image tt 20000 4000
unfolding from_utf8
measured image = record {
  stdout = report;
  report = report;
  text_field = codes "20000";
  data_field = codes "4000";
  present = refl;
  ran = refl;
  decoded = refl;
  fields = fields;
  text_value = refl;
  data_value = refl;
  bounded = omega arith;
}

abbrev root : FilePath
root = "repository" ∷ []

abbrev manifest_dir : FilePath
manifest_dir = "repository" ∷ "xtask" ∷ []

abbrev size_command : List String
size_command = "xtask" ∷ "size" ∷ []

main_size_iff_example :
    ((main machine manifest_dir size_command tt).1 ≡ exit_success)
    ↔ ((24000 ≤ optibridge_flash_limit) × (24000 ≤ i2c_bridge_flash_limit))
main_size_iff_example =
    main_size_iff machine manifest_dir root size_command tt 20000 4000 20000 4000 refl refl
      (measured (release_dir root ++ "optibridge" ∷ []))
      (measured (release_dir root ++ "i2c-bridge" ∷ []))

generate_hal-Guarded_example :
    let ((s', log), ended) = generate_hal (recorded machine) manifest_dir (tt, []) in
    Guarded machine root log
    × (ended ≡ done tt → get_elem? log 0 ≡ some (ran (generate_in root) true))
generate_hal-Guarded_example = generate_hal-Guarded machine root manifest_dir tt refl

-- Euro sign, a surrogate, and a byte that starts nothing.
decoded_texts :
    (from_utf8 (0xe2 ∷ 0x82 ∷ 0xac ∷ b'a' ∷ []) ≡ some (0x20ac ∷ b'a' ∷ []))
    × (from_utf8 (0xed ∷ 0xa0 ∷ 0x80 ∷ []) ≡ none)
    × (from_utf8 (0xff ∷ []) ≡ none)
    × (from_utf8 (0xf0 ∷ 0x9f ∷ 0x98 ∷ 0x80 ∷ []) ≡ some (0x1f600 ∷ []))
unfolding from_utf8
decoded_texts = (refl, refl, refl, refl)

parsed_numbers :
    (parse_u64 (codes "+18446744073709551615") ≡ some 18446744073709551615)
    × (parse_u64 (codes "18446744073709551616") ≡ none)
    × (parse_u64 (codes "+") ≡ none)
unfolding parse_u64 digits_from
parsed_numbers = (refl, refl, refl)

split_lines : lines_from [] (codes "a\r\n\nb\r") ≡ codes "a" ∷ [] ∷ codes "b\r" ∷ []
unfolding lines_from
split_lines = refl
