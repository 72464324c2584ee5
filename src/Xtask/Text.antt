-- ===== src/Xtask/Text.antt =====
-- What xtask/src/main.rs uses of Rust's text: a `str` is the list of its code points. The decoding
-- of UTF-8, `lines`, `split_whitespace` and `parse::<u64>`.
pub mod Rows
use opti_bridge.Prelude.{
  ℕ, zero, suc, ◌+◌, ◌-◌, ◌*◌, ◌^◌, Bool, true, false, Option, none, some, List, [], ◌∷◌, ◌++◌, leb,
  ltb, ◌==◌, ◌&&◌, ◌||◌, if◌then◌else◌, checked_add, checked_mul,
}

abbrev pub Text : Type 0
Text = List ℕ

-- A character in the course of decoding: the bytes that it still needs, the range of the next one,
-- and its bits so far.
record Partial : Type 0 where
  needed : ℕ
  low : ℕ
  high : ℕ
  bits : ℕ

-- What the first byte of a character asks for. The ranges leave out overlong forms, surrogates and
-- what lies beyond the last character.
lead : ℕ → Option Partial
lead a =
    if ltb a 0x80
    then some record { needed = 0; low = 0x80; high = 0xbf; bits = a }
    else if ltb a 0xc2
    then none
    else if ltb a 0xe0
    then some record { needed = 1; low = 0x80; high = 0xbf; bits = a - 0xc0 }
    else if ltb a 0xf0
    then some record {
      needed = 2;
      low = if a == 0xe0 then 0xa0 else 0x80;
      high = if a == 0xed then 0x9f else 0xbf;
      bits = a - 0xe0;
    }
    else if ltb a 0xf5
    then some record {
      needed = 3;
      low = if a == 0xf0 then 0x90 else 0x80;
      high = if a == 0xf4 then 0x8f else 0xbf;
      bits = a - 0xf0;
    }
    else none

next : Partial → ℕ → Option Partial
next p b =
    if leb p.low b && leb b p.high
    then some
        record { needed = p.needed - 1; low = 0x80; high = 0xbf; bits = p.bits * 64 + (b - 0x80) }
    else none

prepend : ℕ → Option Text → Option Text
prepend c none = none
prepend c (some s) = some (c ∷ s)

-- The decoding with the character in course, if any.
decode : Option Partial → List ℕ → Option Text
unfolding lead next prepend
decode none [] = some []
decode (some p) [] = none
decode none (b ∷ bytes) = elim (lead b) [
  | none ↦ none
  | some p ↦ elim p.needed [ zero ↦ prepend b (decode none bytes) | suc n ↦ decode (some p) bytes ]
]
decode (some p) (b ∷ bytes) = elim (next p b) [
  | none ↦ none
  | some q ↦ elim q.needed [
    | zero ↦ prepend q.bits (decode none bytes)
    | suc n ↦ decode (some q) bytes
  ]
]

-- `String::from_utf8`
unfoldable pub from_utf8 : List ℕ → Option Text
unfolding decode
from_utf8 bytes = decode none bytes

-- A line without the carriage return at its end.
abbrev pub strip_return : Text → Text
strip_return [] = []
strip_return (c ∷ []) = if c == b'\r' then [] else c ∷ []
strip_return (c ∷ d ∷ s) = c ∷ strip_return (d ∷ s)

-- The lines of a text behind the part of a line. A last line without a newline keeps its carriage
-- return, and an empty one does not count.
unfoldable pub lines_from : Text → Text → List Text
lines_from [] [] = []
lines_from (x ∷ line) [] = (x ∷ line) ∷ []
lines_from line (c ∷ s) = elim (c == b'\n') [
  | true ↦ strip_return line ∷ lines_from [] s
  | false ↦ lines_from (line ++ c ∷ []) s
]

abbrev pub lines : Text → List Text
lines = lines_from []

-- `char::is_whitespace`
abbrev pub is_whitespace : ℕ → Bool
is_whitespace c =
    (leb 9 c && leb c 13)
    || c == 0x20
    || c == 0x85
    || c == 0xa0
    || c == 0x1680
    || (leb 0x2000 c && leb c 0x200a)
    || c == 0x2028
    || c == 0x2029
    || c == 0x202f
    || c == 0x205f
    || c == 0x3000

-- The words of a text behind the part of a word.
unfoldable pub words_from : Text → Text → List Text
words_from [] [] = []
words_from (x ∷ word) [] = (x ∷ word) ∷ []
words_from [] (c ∷ s) = elim (is_whitespace c) [
  | true ↦ words_from [] s
  | false ↦ words_from (c ∷ []) s
]
words_from (x ∷ word) (c ∷ s) = elim (is_whitespace c) [
  | true ↦ (x ∷ word) ∷ words_from [] s
  | false ↦ words_from (x ∷ word ++ c ∷ []) s
]

abbrev pub split_whitespace : Text → List Text
split_whitespace = words_from []

-- The digits behind a number, in 64 bits.
unfoldable pub digits_from : ℕ → Text → Option ℕ
digits_from n [] = some n
digits_from n (c ∷ s) =
    if ltb c b'0' || ltb b'9' c then none else elim (checked_mul (2 ^ 64) n 10) [
      | none ↦ none
      | some tens ↦ elim (checked_add (2 ^ 64) tens (c - b'0')) [
        | none ↦ none
        | some m ↦ digits_from m s
      ]
    ]

-- `str::parse::<u64>`: a plus sign may stand in front, but not alone.
unfoldable pub parse_u64 : Text → Option ℕ
parse_u64 [] = none
parse_u64 (c ∷ []) = digits_from 0 (c ∷ [])
parse_u64 (c ∷ d ∷ s) = if c == b'+' then digits_from 0 (d ∷ s) else digits_from 0 (c ∷ d ∷ s)
