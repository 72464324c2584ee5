-- ===== src/Xtask/Hal/Log.antt =====
-- A log of what `generate_hal` of xtask/src/main.rs has the machine do, and rules for its steps.
use Prim.Native.String.{String}
use opti_bridge.Prelude.{ℕ, ◌≡◌, Bool, true, false, some, List, [], ◌∷◌, get_elem?, Result, ok, err}
use opti_bridge.Xtask.Machine.{
  FilePath, join, Command, Output, Failure, Host, Ending, done, failed, panicked, Run, ◌>>=◌,
  ensure,
}
use opti_bridge.Xtask.Hal.{
  hair_input_url, fetch, checkout_in, generate_from, generated_dir, source_dir, must_succeed,
}

-- A directory made or not, and a program that succeeded or not.
pub data Event : Type 0 where
  made : FilePath → Event
  ran : Command → Bool → Event

abbrev pub succeeded : Result Output (Unit {0}) → Bool
succeeded (ok output) = output.success
succeeded (err e) = false

-- The machine with a log of its events, the last one first.
abbrev pub recorded {ℓ} : {S : Type ℓ} → Host S → Host (S × List Event)
recorded host = record {
  is_file = λ (s, log) path. host.is_file s path;
  create_dir_all = λ (s, log) path.
      let (s', answer) = host.create_dir_all s path in ((s', made path ∷ log), answer);
  run = λ (s, log) command.
      let (s', answer) = host.run s command in ((s', ran command (succeeded answer) ∷ log), answer);
  print = λ (s, log) message. (host.print s message, log);
  to_str = host.to_str;
}

abbrev pub input_file : FilePath → FilePath
input_file root = join (generated_dir root) "hair.json"

abbrev pub fetch_input : FilePath → Command
fetch_input root = fetch hair_input_url (input_file root)

abbrev pub generate_in : FilePath → Command
generate_in root = generate_from (source_dir root) (input_file root) (generated_dir root)

module _ {ℓ} {S : Type ℓ} (host : Host S) (root : FilePath) where
  abbrev pub Fetched : List Event → Type 0
  Fetched log = (i : ℕ) × (get_elem? log i ≡ some (ran (fetch_input root) true))

  abbrev pub Selected : List Event → Type 0
  Selected log =
      (source : String) × (host.to_str (source_dir root) ≡ some source)
      × (get_elem? log 0 ≡ some (ran (checkout_in source) true))

  abbrev pub Allowed : Event → List Event → Type 0
  Allowed (made path) log = Unit
  Allowed (ran command success) log = command ≡ generate_in root → Fetched log × Selected log

  -- The generator has only run directly after the pinned revision was checked out and with its input
  -- downloaded.
  abbrev pub Guarded : List Event → Type 0
  Guarded [] = Unit
  Guarded (event ∷ log) = Allowed event log × Guarded log

-- What holds of the state if a function ends with a value, and if not.
abbrev pub Post {ℓ κ υ} :
    {S : Type ℓ} {A : Type κ} → (S → Type υ) → (S → Type υ) → S × Ending A → Type υ
Post Q F (s, done a) = Q s
Post Q F (s, failed e) = F s
Post Q F (s, panicked) = F s

pub Post-bind {ℓ κ υ} :
    {S : Type ℓ} {A B : Type κ} (P Q F : S → Type υ) (m : Run S A) (f : A → Run S B) (s : S)
    → Post P F (m s)
    → ((a : A) (s' : S) → P s' → Post Q F (f a s'))
    → Post Q F ((m >>= f) s)
Post-bind {S = S} {A = A} {B = B} P Q F m f s = go (m s)
  where
    go :
        (x : S × Ending A)
        → Post P F x
        → ((a : A) (s' : S) → P s' → Post Q F (f a s'))
        → Post {A = B} Q F (elim x.1 [
          | done a ↦ f a x.0
          | failed e ↦ (x.0, failed e)
          | panicked ↦ (x.0, panicked)
        ])
    go (s', done a) h k = k a s' h
    go (s', failed e) h k = h
    go (s', panicked) h k = h

pub must_succeed-Post {ℓ κ} :
    {S : Type ℓ} (host : Host S) (Q F : S × List Event → Type κ) (command : Command) (e : Failure)
    (s : S) (log : List Event)
    → ((s' : S) → Q (s', ran command true ∷ log))
    → ((s' : S) → F (s', ran command false ∷ log))
    → Post Q F (must_succeed (recorded host) command e (s, log))
must_succeed-Post {S = S} host Q F command e s log q f = go (host.run s command)
  where
    after : S × Result Output (Unit {0}) → (S × List Event) × Ending (Unit {0})
    after (s', answer) =
        (must_succeed
          (record (recorded host) {
            run = λ state command. ((s', ran command (succeeded answer) ∷ log), answer);
          })
          command e (s, log))

    tested : (s' : S) (b : Bool) → Post Q F (ensure b e (s', ran command b ∷ log))
    tested s' true = q s'
    tested s' false = f s'

    go : (x : S × Result Output (Unit {0})) → Post Q F (after x)
    go (s', ok output) = tested s' output.success
    go (s', err u) = f s'
