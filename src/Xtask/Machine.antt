-- ===== src/Xtask/Machine.antt =====
-- What xtask/src/main.rs asks of the machine: files, programs and the terminal, as a record over an
-- unknown state; and its functions' early returns with `?` on that state.
use Prim.Native.String.{String}
use opti_bridge.Prelude.{
  ℕ, Bool, true, false, Option, none, some, List, [], ◌∷◌, ◌++◌, Result, ok, err,
}

-- The components below the root.
abbrev pub FilePath : Type 0
FilePath = List String

abbrev pub join : FilePath → String → FilePath
join path name = path ++ name ∷ []

-- The root has no parent.
abbrev pub parent : FilePath → Option FilePath
parent [] = none
parent (x ∷ []) = some []
parent (x ∷ y ∷ path) = elim (parent (y ∷ path)) [ none ↦ none | some above ↦ some (x ∷ above) ]

pub data Argument : Type 0 where
  word : String → Argument
  place : FilePath → Argument

pub record Command : Type 0 where
  pub program : String
  pub args : List Argument
  pub current_dir : Option FilePath

-- A program that has run: whether its exit status is success, and its standard output.
pub record Output : Type 0 where
  pub success : Bool
  pub stdout : List ℕ

-- The errors, by the place that returns them; `io_error` and `bad_number` are those of the system and
-- of `parse`.
pub data Failure : Type 0 where
  no_root invalid_source_path io_error size_failed not_utf8 no_row no_text no_data : Failure
  bad_number not_cloned not_selected not_generated : Failure
  missing_image : FilePath → Failure
  over_limit : (name : String) (flash_limit : ℕ) → Failure
  not_downloaded : (url : String) → Failure

pub data Message : Type 0 where
  usage : Message
  generation_failed report_failed : Failure → Message
  size_line : (name : String) (text data_ flash : ℕ) → Message

-- A program that cannot be started or waited for is an error, as is a directory that cannot be made.
-- `to_str` is none for a path that is not Unicode.
pub record Host {ℓ} (S : Type ℓ) : Type ℓ where
  pub is_file : S → FilePath → Bool
  pub create_dir_all : S → FilePath → S × Result (Unit {0}) (Unit {0})
  pub run : S → Command → S × Result Output (Unit {0})
  pub print : S → Message → S
  pub to_str : FilePath → Option String

-- How a function ends: with a value, with an error that it returns, or with a panic.
pub data Ending {ℓ} (A : Type ℓ) : Type ℓ where
  done : A → Ending A
  failed : Failure → Ending A
  panicked : Ending A

abbrev pub Run {ℓ κ} : Type ℓ → Type κ → Type (ℓ ⊔ κ)
Run S A = S → S × Ending A

module _ {ℓ} {S : Type ℓ} where
  infixl 5 ◌>>=◌ ◌>>◌
  abbrev pub ◌>>=◌ {κ υ} : {A : Type κ} {B : Type υ} → Run S A → (A → Run S B) → Run S B
  ◌>>=◌ m f s =
      let (s', ended) = m s in
      elim ended [ done a ↦ f a s' | failed e ↦ (s', failed e) | panicked ↦ (s', panicked) ]

  abbrev pub ◌>>◌ {υ} : {B : Type υ} → Run S (Unit {0}) → Run S B → Run S B
  m >> k = m >>= λ _. k

  -- `option.ok_or(e)?`
  abbrev pub ok_or {κ} : {A : Type κ} → Option A → Failure → Run S A
  ok_or none e s = (s, failed e)
  ok_or (some a) e s = (s, done a)

  -- `if !test { return Err(e); }`
  abbrev pub ensure : Bool → Failure → Run S (Unit {0})
  ensure true e s = (s, done tt)
  ensure false e s = (s, failed e)

  -- A result of the system, with `?`.
  abbrev pub or_io_error {κ} : {A : Type κ} → S × Result A (Unit {0}) → S × Ending A
  or_io_error (s, ok a) = (s, done a)
  or_io_error (s, err e) = (s, failed io_error)
