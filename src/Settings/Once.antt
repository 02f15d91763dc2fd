-- ===== src/Settings/Once.antt =====
-- dmlf/settings.py: which settings a process sees after it has loaded them.
use distributed_ml_training.Base.{◌≡◌, refl, String, Option, none, some, ◌⊎◌, inl, inr, Dict}
use distributed_ml_training.Floats.{Floats}
use distributed_ml_training.Settings.{Settings}
use distributed_ml_training.Settings.Load.{
  Documents, LoadError, Instance, settings_of, load_settings, get_settings,
}

module _ (fl : Floats) (docs : Documents fl) where
  open docs use {Value, Files, read}

  -- What the instance is after a load, for what it was before: the loaded settings, which every
  -- later reader gets without reading a file, or what it was, if the load raised.
  abbrev pub Kept : Instance fl docs → Instance fl docs × (Settings fl ⊎ LoadError fl docs) → Type 0
  Kept before (after, inl s) =
      (after ≡ some s) × ((later : Files) → get_settings fl docs later after ≡ (after, inl s))
  Kept before (after, inr e) = after ≡ before

  -- After a load, every later `get_settings` returns the settings that were loaded, whatever has
  -- become of the file; a load that raises leaves the settings as they were.
  pub load_settings-Kept :
      (files : Files) (path : String) (before : Instance fl docs)
      → Kept before (load_settings fl docs files path before)
  unfolding load_settings get_settings
  load_settings-Kept files path before = go (read files path)
    where
      go :
          (r : Option (Option (Dict Value)))
          → Kept before (elim r [
            | none ↦ (before, inr LoadError.file_not_found)
            | some none ↦ (before, inr LoadError.yaml_error)
            | some (some entries) ↦ elim (settings_of fl docs entries) [
              | none ↦ (before, inr LoadError.validation_error)
              | some s ↦ (some s, inl s)
            ]
          ])
      go none = refl
      go (some none) = refl
      go (some (some entries)) = finish (settings_of fl docs entries)
        where
          finish :
              (o : Option (Settings fl))
              → Kept before (elim o [
                | none ↦ (before, inr LoadError.validation_error)
                | some s ↦ (some s, inl s)
              ])
          finish none = refl
          finish (some s) = (refl, λ later. refl)
