-- ===== src/Check/Command.antt =====
-- The command of .agents/skills/archify/scripts/check-update.mjs: `defaultCacheDirectory`,
-- `runCli` and `isMainModule`, and the end of the script.
pub mod Reported
use salience.Base.{
  Text, codes, text_eq, List, [], ◌∷◌, ◌++◌, Bool, false, Option, none, some, if◌then◌else◌,
}
use salience.Json.{string}
use salience.Cache.Disk.{FilePath, path_eq}
use salience.Cache.Action.{Action, pure, catch, ◌>>=◌}
use salience.Cache.Prefix.{Roots, real_path}
use salience.Update.Decision.{Outcome, silent, disabled, invalid_arguments, check_failed}
use salience.Check.{Runtime, CheckOptions, check_for_update}
use salience.Check.Acknowledge.{Clock, AcknowledgeOptions, ended, acknowledge_update}

-- `process.platform`, `os.homedir()`, and the variables of the environment that hold an absolute
-- path.
pub record Host : Type 0 where
  pub platform : Text
  pub home_directory : FilePath
  pub local_app_data : Option FilePath
  pub xdg_cache_home : Option FilePath

abbrev pub path_or : Option FilePath → FilePath → FilePath
path_or none p = p
path_or (some q) p = q

-- `defaultCacheDirectory`
unfoldable pub default_cache_directory : Host → FilePath
default_cache_directory host =
    if text_eq host.platform (codes "win32")
    then path_or host.local_app_data (host.home_directory ++ (codes "AppData" ∷ codes "Local" ∷ []))
      ++ (codes "archify-skill" ∷ [])
    else (if text_eq host.platform (codes "darwin")
        then host.home_directory ++ (codes "Library" ∷ codes "Caches" ∷ codes "archify-skill" ∷ [])
        else path_or host.xdg_cache_home (host.home_directory ++ (codes ".cache" ∷ []))
          ++ (codes "archify-skill" ∷ []))

abbrev pub is_disabled : Option Text → Bool
is_disabled none = false
is_disabled (some t) = text_eq t (codes "1")

module _ (runtime : Runtime) (options : CheckOptions) (clock : Clock) where
  abbrev pub acknowledge_options : Text → AcknowledgeOptions
  acknowledge_options event_key = record {
    release_path = options.release_path;
    cache_directory = options.cache_directory;
    event_key = string event_key;
    monotonic_now = some clock;
  }

  abbrev pub acknowledging : Text → Text → Action (Option Outcome)
  acknowledging flag event_key =
      if text_eq flag (codes "--ack")
      then acknowledge_update runtime (acknowledge_options event_key)
      else ended (silent invalid_arguments)

  abbrev pub dispatched : List Text → Action (Option Outcome)
  dispatched [] = do o ← check_for_update runtime options; pure (some o)
  dispatched (flag ∷ []) = ended (silent invalid_arguments)
  dispatched (flag ∷ event_key ∷ []) = acknowledging flag event_key
  dispatched (flag ∷ event_key ∷ more ∷ arguments) = ended (silent invalid_arguments)

  -- `runCli`, of the arguments behind the name of the script, with the defaults of both functions.
  unfoldable pub run_cli : Option Text → List Text → Action (Option Outcome)
  run_cli check_disabled arguments =
      if is_disabled check_disabled then ended (silent disabled) else dispatched arguments

-- `isMainModule`, of the script that was started and the module's own path.
unfoldable pub is_main_module : Roots → Option FilePath → FilePath → Action Bool
is_main_module roots none module_path = pure false
is_main_module roots (some entry) module_path =
    catch
      (do
        entry_path ← real_path roots entry
        own_path ← real_path roots module_path
        pure (path_eq entry_path own_path))
      (λ e. pure (path_eq entry module_path))

-- The end of the script: the result that it writes, where it is the main module.
unfoldable pub main :
    Runtime
    → CheckOptions
    → Clock
    → Option Text
    → List Text
    → (started : Option FilePath) (module_path : FilePath) → Action (Option (Option Outcome))
main runtime options clock check_disabled arguments started module_path = do
  is_main ← is_main_module runtime.roots started module_path
  if is_main
      then (do
        result ←
            catch (run_cli runtime options clock check_disabled arguments)
              (λ e. ended (silent check_failed))
        pure (some result))
      else pure none
