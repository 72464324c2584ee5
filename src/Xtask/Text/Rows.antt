-- ===== src/Xtask/Text/Rows.antt =====
-- Rows of fields and their numbers, as Rust's text functions read them.
use opti_bridge.Prelude.{
  ℕ, ◌+◌, ◌-◌, ◌*◌, ◌^◌, ◌≤◌, ◌<◌, ◌≡◌, ◌≢◌, refl, some, [], ◌∷◌, ◌++◌, All, arith, true, false,
  append_assoc, append-nil, ◌==◌, Bool-cases, inl, inr, ap, subst, get_elem?, ◌∙◌,
}
use opti_bridge.Xtask.Text.{
  Text, strip_return, lines_from, is_whitespace, words_from, digits_from, parse_u64, lines,
  split_whitespace,
}

abbrev pub IsDigit : ℕ → Type 0
IsDigit c = (b'0' ≤ c) × (c ≤ b'9')

-- The number that digits spell behind `n`, with no bound.
abbrev pub value_from : ℕ → Text → ℕ
value_from n [] = n
value_from n (c ∷ s) = value_from (n * 10 + (c - b'0')) s

abbrev pub value : Text → ℕ
value = value_from 0

le-value_from : (s : Text) (n : ℕ) → n ≤ value_from n s
le-value_from [] n = omega arith
le-value_from (c ∷ s) n = omega (arith, le-value_from s (n * 10 + (c - b'0')))

digits_from-value_from :
    (s : Text) (n : ℕ)
    → All IsDigit s
    → value_from n s < 2 ^ 64
    → digits_from n s ≡ some (value_from n s)
unfolding digits_from
digits_from-value_from [] n _ _ = refl
digits_from-value_from (c ∷ s) n (digit, digits) fits =
    let m = n * 10 + (c - b'0') in
    ground (arith, digits_from-value_from s m digits fits, le-value_from s m)

-- Digits that spell a number of 64 bits parse to it.
pub parse_u64-value :
    (s : Text) → s ≢ [] → All IsDigit s → value s < 2 ^ 64 → parse_u64 s ≡ some (value s)
unfolding parse_u64
parse_u64-value [] some_digits _ _ = absurd (some_digits refl)
parse_u64-value (c ∷ []) _ digits fits = digits_from-value_from (c ∷ []) 0 digits fits
parse_u64-value (c ∷ d ∷ s) _ digits fits =
    let e : (c == b'+') ≡ false = ground (arith, digits.0) in
    rw (parse_u64, e) (digits_from-value_from (c ∷ d ∷ s) 0 digits fits)

abbrev pub IsBlank : ℕ → Type 0
IsBlank c = is_whitespace c ≡ true

abbrev pub IsInLine : ℕ → Type 0
IsInLine c = c ≢ b'\n'

-- A line up to its newline.
lines_from-line :
    (xs line s : Text)
    → All IsInLine xs
    → lines_from line (xs ++ b'\n' ∷ s) ≡ strip_return (line ++ xs) ∷ lines_from [] s
unfolding lines_from
lines_from-line [] [] s _ = refl
lines_from-line [] (x ∷ line) s _ = rw (append-nil line) refl
lines_from-line (c ∷ xs) [] s (inside, insides) =
    let e : (c == b'\n') ≡ false = ground (arith, inside) in
    rw (lines_from, e) (lines_from-line xs (c ∷ []) s insides)
lines_from-line (c ∷ xs) (x ∷ line) s (inside, insides) =
    let e : (c == b'\n') ≡ false = ground (arith, inside) in
    rw
      (
        lines_from,
        e,
        lines_from-line xs (x ∷ line ++ c ∷ []) s insides,
        append_assoc line (c ∷ []) xs,
      )
      refl

return_ends : (word : Text) → words_from word [] ≡ words_from word (b'\r' ∷ [])
unfolding words_from
return_ends [] = refl
return_ends (x ∷ word) = refl

-- A carriage return at the end of a line is no part of a word.
words_from-strip_return : (s word : Text) → words_from word (strip_return s) ≡ words_from word s
unfolding words_from
words_from-strip_return [] word = refl
words_from-strip_return (c ∷ []) word = elim (Bool-cases (c == b'\r')) [
  | inl e ↦
      let own : b'\r' ≡ c = ground (arith, e) in
      rw e (subst (λ d. words_from word [] ≡ words_from word (d ∷ [])) own (return_ends word))
  | inr e ↦ rw e refl
]
words_from-strip_return (c ∷ d ∷ s) [] = elim (Bool-cases (is_whitespace c)) [
  | inl e ↦ rw (words_from, e) (words_from-strip_return (d ∷ s) [])
  | inr e ↦ rw (words_from, e) (words_from-strip_return (d ∷ s) (c ∷ []))
]
words_from-strip_return (c ∷ d ∷ s) (x ∷ word) = elim (Bool-cases (is_whitespace c)) [
  | inl e ↦ rw (words_from, e) (ap (λ w. (x ∷ word) ∷ w) (words_from-strip_return (d ∷ s) []))
  | inr e ↦ rw (words_from, e) (words_from-strip_return (d ∷ s) (x ∷ word ++ c ∷ []))
]

words_from-blanks :
    (blanks s : Text) → All IsBlank blanks → words_from [] (blanks ++ s) ≡ words_from [] s
unfolding words_from
words_from-blanks [] s _ = refl
words_from-blanks (c ∷ blanks) s (blank, more) =
    rw (words_from, blank) (words_from-blanks blanks s more)

words_from-digits :
    (ds : Text) (x : ℕ) (word s : Text)
    → All IsDigit ds
    → words_from (x ∷ word) (ds ++ s) ≡ words_from (x ∷ word ++ ds) s
unfolding words_from
words_from-digits [] x word s _ = rw (append-nil word) refl
words_from-digits (c ∷ ds) x word s (digit, digits) =
    let e : is_whitespace c ≡ false = ground (arith, digit) in
    rw
      (
        words_from,
        e,
        words_from-digits ds x (word ++ c ∷ []) s digits,
        append_assoc word (c ∷ []) ds,
      )
      refl

-- A first field of digits, up to the blank behind it.
words_from-field :
    (ds : Text) (blank : ℕ) (s : Text)
    → ds ≢ []
    → All IsDigit ds
    → IsBlank blank
    → words_from [] (ds ++ blank ∷ s) ≡ ds ∷ words_from [] s
unfolding words_from
words_from-field [] blank s some_digits _ _ = absurd (some_digits refl)
words_from-field (c ∷ ds) blank s _ (digit, digits) ends =
    let e : is_whitespace c ≡ false = ground (arith, digit) in
    rw (words_from, e, words_from-digits ds c [] (blank ∷ s) digits, ends) refl

-- A row whose first two fields are numbers, each with a blank behind it.
abbrev pub row_of : Text → Text → ℕ → Text → Text → ℕ → Text → Text
row_of blanks text after_text gap data_ after_data tail =
    blanks ++ (text ++ after_text ∷ (gap ++ (data_ ++ after_data ∷ tail)))

words_from-row :
    (blanks text gap data_ tail : Text) (after_text after_data : ℕ)
    → All IsBlank blanks
    → text ≢ []
    → All IsDigit text
    → IsBlank after_text
    → All IsBlank gap
    → data_ ≢ []
    → All IsDigit data_
    → IsBlank after_data
    → words_from [] (row_of blanks text after_text gap data_ after_data tail)
      ≡ text ∷ data_ ∷ words_from [] tail
words_from-row blanks text gap data_ tail after_text after_data b t ts at g d ds ad =
    rw
      (
        words_from-blanks blanks (text ++ after_text ∷ (gap ++ (data_ ++ after_data ∷ tail))) b,
        words_from-field text after_text (gap ++ (data_ ++ after_data ∷ tail)) t ts at,
        words_from-blanks gap (data_ ++ after_data ∷ tail) g,
        words_from-field data_ after_data tail d ds ad,
      )
      refl

-- A report of llvm-size: a header, and in the second line the sizes of the text and data sections.
pub record IsReport (report text data_ : Text) : Type 0 where
  pub header : Text
  pub blanks : Text
  pub after_text : ℕ
  pub gap : Text
  pub after_data : ℕ
  pub tail : Text
  pub rest : Text
  pub shape :
      report
      ≡ header ++ b'\n' ∷ (row_of blanks text after_text gap data_ after_data tail ++ b'\n' ∷ rest)
  pub header_line : All IsInLine header
  pub row_line : All IsInLine (row_of blanks text after_text gap data_ after_data tail)
  pub blanks_blank : All IsBlank blanks
  pub text_some : text ≢ []
  pub text_digits : All IsDigit text
  pub after_text_blank : IsBlank after_text
  pub gap_blank : All IsBlank gap
  pub data_some : data_ ≢ []
  pub data_digits : All IsDigit data_
  pub after_data_blank : IsBlank after_data

-- The second line of such a report, and its fields.
pub IsReport-row :
    {report text data_ : Text}
    → IsReport report text data_
    → (row : Text) × (get_elem? (lines report) 1 ≡ some row)
      × (get_elem? (split_whitespace row) 0 ≡ some text)
      × (get_elem? (split_whitespace row) 1 ≡ some data_)
IsReport-row {report} {text} {data_} r =
    let row = row_of r.blanks text r.after_text r.gap data_ r.after_data r.tail in
    let read =
      words_from-strip_return row []
      ∙ words_from-row r.blanks text r.gap data_ r.tail r.after_text r.after_data r.blanks_blank
          r.text_some r.text_digits r.after_text_blank r.gap_blank r.data_some r.data_digits
          r.after_data_blank in
    (
      strip_return row,
      rw
          (
            r.shape,
            lines_from-line r.header [] (row ++ b'\n' ∷ r.rest) r.header_line,
            lines_from-line row [] r.rest r.row_line,
          )
          refl,
      rw read refl,
      rw read refl,
    )
