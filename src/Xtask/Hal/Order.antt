-- ===== src/Xtask/Hal/Order.antt =====
-- The order of the steps of `generate_hal` in xtask/src/main.rs, by a log of what it had the machine
-- do.
use Prim.Native.String.{String}
use opti_bridge.Prelude.{
  suc, ◌≡◌, refl, ◌≢◌, Bool, true, false, some, List, [], ◌∷◌, get_elem?, Result, ok, err,
  Option-cases, inl, inr, ap,
}
use opti_bridge.Xtask.Machine.{
  FilePath, join, parent, Command, not_downloaded, not_cloned, not_selected, not_generated,
  invalid_source_path, Host, Ending, done, failed, panicked, Run, ◌>>=◌, ◌>>◌, ok_or, or_io_error,
}
use opti_bridge.Xtask.Hal.Log.{
  Event, made, ran, recorded, input_file, fetch_input, generate_in, Fetched, Selected, Guarded,
  Post, Post-bind, must_succeed-Post,
}
use opti_bridge.Xtask.Hal.{
  hair_input_url, clone_to, checkout_in, generated_dir, source_dir, must_succeed, clone_if_missing,
  download, generate_hal,
}

module _ {ℓ} {S : Type ℓ} (host : Host S) (root : FilePath) where
  abbrev IsGuarded : S × List Event → Type 0
  IsGuarded (s, log) = Guarded host root log

  abbrev IsFetched : S × List Event → Type 0
  IsFetched (s, log) = Guarded host root log × Fetched host root log

  abbrev IsSelected : S × List Event → Type 0
  IsSelected (s, log) = IsFetched (s, log) × Selected host root log

  abbrev IsGenerated : S × List Event → Type 0
  IsGenerated (s, log) =
      Guarded host root log × (get_elem? log 0 ≡ some (ran (generate_in root) true))

  -- Any other program may run at any time.
  other_allowed :
      (command : Command) (success : Bool) (log : List Event)
      → command.program ≢ "cargo"
      → Guarded host root log
      → Guarded host root (ran command success ∷ log)
  other_allowed command success log other guarded =
      ((λ e. absurd (other (ap (λ c. c.program) e))), guarded)

  clone-Post :
      (s : S) (log : List Event)
      → IsFetched (s, log)
      → Post IsFetched IsGuarded (clone_if_missing (recorded host) (source_dir root) (s, log))
  clone-Post s log (guarded, (i, fetched)) =
      go (host.is_file s (join (source_dir root) "Cargo.toml"))
    where
      go :
          (b : Bool)
          → Post {A = Unit {0}} IsFetched IsGuarded (elim b [
            | true ↦ ((s, log), done tt)
            | false ↦ must_succeed (recorded host) (clone_to (source_dir root)) not_cloned (s, log)
          ])
      go true = (guarded, (i, fetched))
      go false =
          must_succeed-Post host IsFetched IsGuarded (clone_to (source_dir root)) not_cloned s log
            (λ s'.
              (other_allowed (clone_to (source_dir root)) true log (cc) guarded, (suc i, fetched)))
            (λ s'. other_allowed (clone_to (source_dir root)) false log (cc) guarded)

  checkout-Post :
      (source : String) (s : S) (log : List Event)
      → host.to_str (source_dir root) ≡ some source
      → IsFetched (s, log)
      → Post IsSelected IsGuarded
          (must_succeed (recorded host) (checkout_in source) not_selected (s, log))
  checkout-Post source s log named (guarded, (i, fetched)) =
      must_succeed-Post host IsSelected IsGuarded (checkout_in source) not_selected s log
        (λ s'. (
          (other_allowed (checkout_in source) true log (cc) guarded, (suc i, fetched)),
          (source, named, refl),
        ))
        (λ s'. other_allowed (checkout_in source) false log (cc) guarded)

  generate-Post :
      (s : S) (log : List Event)
      → IsSelected (s, log)
      → Post IsGenerated IsGuarded
          (must_succeed (recorded host) (generate_in root) not_generated (s, log))
  generate-Post s log ((guarded, fetched), selected) =
      must_succeed-Post host IsGenerated IsGuarded (generate_in root) not_generated s log
        (λ s'. (((λ _. (fetched, selected)), guarded), refl))
        (λ s'. ((λ _. (fetched, selected)), guarded))

  -- The last steps: from the checkout, from the clone, and from the download.
  abbrev selecting : Run (S × List Event) (Unit {0})
  selecting = do
    source ← ok_or (host.to_str (source_dir root)) invalid_source_path
    must_succeed (recorded host) (checkout_in source) not_selected
    must_succeed (recorded host) (generate_in root) not_generated

  abbrev cloning : Run (S × List Event) (Unit {0})
  cloning = do clone_if_missing (recorded host) (source_dir root); selecting

  abbrev fetching : Run (S × List Event) (Unit {0})
  fetching = do download (recorded host) hair_input_url (input_file root); cloning

  select-Post :
      (s : S) (log : List Event)
      → IsFetched (s, log)
      → Post IsGenerated IsGuarded (selecting (s, log))
  select-Post s log fetched = elim (Option-cases (host.to_str (source_dir root))) [
    | inl unnamed ↦ rw unnamed (fetched.0)
    | inr (source, named) ↦ rw named (
        Post-bind IsSelected IsGenerated IsGuarded
          (must_succeed (recorded host) (checkout_in source) not_selected)
          (λ _. must_succeed (recorded host) (generate_in root) not_generated) (s, log)
          (checkout-Post source s log named fetched)
          (λ _ (s', log') selected. generate-Post s' log' selected))
  ]

  made-Post :
      (s : S)
      → Post IsGuarded IsGuarded
          (or_io_error ((recorded host).create_dir_all (s, []) (generated_dir root)))
  made-Post s = go (host.create_dir_all s (generated_dir root))
    where
      go :
          (x : S × Result (Unit {0}) (Unit {0}))
          → Post {A = Unit {0}} IsGuarded IsGuarded
              (or_io_error ((x.0, made (generated_dir root) ∷ []), x.1))
      go (s', ok u) = (tt, tt)
      go (s', err u) = (tt, tt)

  fetch-Post :
      (s : S) (log : List Event)
      → Guarded host root log
      → Post IsFetched IsGuarded
          (download (recorded host) hair_input_url (input_file root) (s, log))
  unfolding download
  fetch-Post s log guarded =
      must_succeed-Post host IsFetched IsGuarded (fetch_input root) (not_downloaded hair_input_url)
        s log (λ s'. (other_allowed (fetch_input root) true log (cc) guarded, (0, refl)))
        (λ s'. other_allowed (fetch_input root) false log (cc) guarded)

  cloned_on :
      (s : S) (log : List Event)
      → IsFetched (s, log)
      → Post IsGenerated IsGuarded (cloning (s, log))
  cloned_on s log fetched =
      Post-bind IsFetched IsGenerated IsGuarded (clone_if_missing (recorded host) (source_dir root))
        (λ _. selecting) (s, log) (clone-Post s log fetched)
        (λ _ (s', log') more. select-Post s' log' more)

  fetched_on :
      (s : S) (log : List Event)
      → Guarded host root log
      → Post IsGenerated IsGuarded (fetching (s, log))
  fetched_on s log guarded =
      Post-bind IsFetched IsGenerated IsGuarded
        (download (recorded host) hair_input_url (input_file root)) (λ _. cloning) (s, log)
        (fetch-Post s log guarded) (λ _ (s', log') more. cloned_on s' log' more)

  generate_hal-Post :
      (manifest_dir : FilePath) (s : S)
      → parent manifest_dir ≡ some root
      → Post IsGenerated IsGuarded (generate_hal (recorded host) manifest_dir (s, []))
  unfolding generate_hal
  generate_hal-Post manifest_dir s above =
      rw (generate_hal, above)
        (Post-bind IsGuarded IsGenerated IsGuarded
          (λ state. or_io_error ((recorded host).create_dir_all state (generated_dir root)))
          (λ _. fetching) (s, []) (made-Post s) (λ _ (s', log) guarded. fetched_on s' log guarded))

  Post-ends :
      (x : (S × List Event) × Ending (Unit {0}))
      → Post IsGenerated IsGuarded x
      → Guarded host root x.0.1
        × (x.1 ≡ done tt → get_elem? x.0.1 0 ≡ some (ran (generate_in root) true))
  Post-ends (s, done u) (guarded, last) = (guarded, λ _. last)
  Post-ends (s, failed e) guarded = (guarded, λ h. absurd (cc h))
  Post-ends (s, panicked) guarded = (guarded, λ h. absurd (cc h))

  -- The generator of the hardware abstraction only runs directly after the checkout of the pinned
  -- revision has succeeded, with its input downloaded before, whatever the machine answers; and
  -- `generate_hal` returns without an error only if the generator was the last to run and succeeded.
  pub generate_hal-Guarded :
      (manifest_dir : FilePath) (s : S)
      → parent manifest_dir ≡ some root
      → let ((s', log), ended) = generate_hal (recorded host) manifest_dir (s, []) in
        Guarded host root log
        × (ended ≡ done tt → get_elem? log 0 ≡ some (ran (generate_in root) true))
  generate_hal-Guarded manifest_dir s above =
      Post-ends (generate_hal (recorded host) manifest_dir (s, []))
        (generate_hal-Post manifest_dir s above)
