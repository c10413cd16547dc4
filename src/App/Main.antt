-- ===== src/App/Main.antt =====
-- cmd/gateway/main.go: `main`, which loads the configuration, saves the default one where there is none, and
-- runs the components. JSON and the file system are arguments.
use Prim.Native.String.{String}
use text.Mathlib.Text.{◌==◌ as str_eq}
use thermal_recovery_flow.Base.{
  ℕ, ◌≡◌, refl, Bool, true, false, not, ◌&&◌, Option, none, some, List, if◌then◌else◌, Result, ok,
  err,
}
use thermal_recovery_flow.Base.Float.{Float}
use thermal_recovery_flow.Frame.{Formats}
use thermal_recovery_flow.Logger.{LogLevel, level_info}
use thermal_recovery_flow.Config.{
  Config, FileRead, found, not_found, failed, default_config, load_config, save, parse_log_level,
  load_config-not_found, load_config-found, save-ok, default_config-level,
}
use thermal_recovery_flow.App.Run.{Answers, Life, Signal, Ending, exits, run}

-- `json.MarshalIndent`, `json.Unmarshal` into a configuration, and `os.WriteFile`.
pub record Files (E F : Type 0) : Type 0 where
  pub marshal : Config F → Result E (List ℕ)
  pub unmarshal : List ℕ → Config F → Result E (Config F)
  pub write_file : List ℕ → FileRead E → FileRead E × Option E

-- `os.IsNotExist` of the error of `os.Stat`.
is_missing : {E : Type 0} → FileRead E → Bool
is_missing not_found = true
is_missing (found bytes) = false
is_missing (failed e) = false

-- What `main` has made of the file when it ends, the level of the logger once it is set, and the end itself,
-- `none` for a panic of the interceptor.
pub record Outcome (E F : Type 0) : Type 0 where
  pub file : FileRead E
  pub level : Option LogLevel
  pub ending : Option (Ending E F)

module _ {E F : Type 0} ⦃o : Float F⦄ (files : Files E F) where
  -- The part of `main` before `init`: the configuration and the level of the logger. The error of `Save` is not
  -- looked at.
  pub configure : String → FileRead E → FileRead E × Result E (Config F × LogLevel)
  unfolding is_missing
  configure path file = elim (load_config files.unmarshal path file) [
    | err e ↦ (file, err e)
    | ok cfg ↦ (
      if not (str_eq path "") && is_missing file
          then (save files.marshal files.write_file cfg file).0
          else file,
      ok (cfg, parse_log_level cfg.log_level),
    )
  ]

  -- `main`; a configuration that can not be loaded is fatal.
  pub main :
      Formats E F
      → (String → String)
      → String
      → FileRead E
      → ℕ
      → Answers E
      → Life E F
      → List Signal
      → Outcome E F
  unfolding configure
  main std file_dir path file seq w l signals =
      let (file', r) = configure path file in
      elim r [
        | err e ↦ record { file = file'; level = none; ending = some (exits 1 none) }
        | ok (cfg, level) ↦ record {
          file = file';
          level = some level;
          ending = run std file_dir cfg seq w l signals;
        }
      ]

  -- The first run with a name for the configuration, but no file of this name, takes the default and saves it; where
  -- that succeeds and the saved bytes are decoded to what was encoded, the next run gets the same configuration and
  -- level from the file, and leaves the file as it is.
  pub configure_again :
      (path : String) (bytes : List ℕ)
      → str_eq path "" ≡ false
      → files.marshal default_config ≡ ok bytes
      → files.write_file bytes not_found ≡ (found bytes, none)
      → files.unmarshal bytes default_config ≡ ok default_config
      → (configure path not_found ≡ (found bytes, ok (default_config, level_info)))
        × (configure path (found bytes) ≡ configure path not_found)
  unfolding configure
  configure_again path bytes named encoded written decoded =
      let level = default_config-level F in
      let saved = save-ok files.marshal files.write_file default_config not_found bytes encoded in
      let first : configure path not_found ≡ (found bytes, ok (default_config, level_info)) =
        rw (load_config-not_found files.unmarshal path, configure)
          (rw (named, is_missing, saved, written, level) refl) in
      (
        first,
        rw (first, load_config-found files.unmarshal path bytes named, decoded, configure)
            (rw (named, is_missing, level) refl),
      )
