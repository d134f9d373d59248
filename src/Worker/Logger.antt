-- ===== src/Worker/Logger.antt =====
-- cmd/common/logger/logger.go, and the handler of /loglevel in cmd/terra-worker/dynamic.go.
pub mod Unset
mod Examples
use Prim.Native.String.{len}
use terra_worker.Prelude.{
  ℕ, String, Bool, true, false, ◌&&◌, ◌||◌, not, ltb, Option, none, some, List, [], ◌∷◌, str_eq,
  if◌then◌else◌,
}
use terra_worker.Go.Outcome.{Outcome, ok, err, panic, ◌>>=◌}

-- What is used of packages strings and zap: ToLower, the levels, and Config.Build, for the level
-- and the paths of the output.
pub record Zap {ℓ} (Level Log : Type ℓ) : Type ℓ where
  pub to_lower : String → String
  pub panic_level : Level
  pub fatal_level : Level
  pub error_level : Level
  pub warn_level : Level
  pub info_level : Level
  pub debug_level : Level
  pub build : Level → List String → Outcome Log

-- The variable Log: a *zap.Logger, and an AtomicLevel, which is a pointer to the level; both
-- pointers are nil from the start on.
pub record Logger {ℓ} (Level Log : Type ℓ) : Type ℓ where
  pub log : Option Log
  pub level : Option Level

-- Building the text of the token that is logged: its first five bytes. `none` is a nil
-- *RollbarConfig.
unfoldable pub with_rollbar {ℓ} : {Log : Type ℓ} → Option String → Log → Outcome Log
with_rollbar none log = ok log
with_rollbar (some rollbar_access_token) log =
    if not (str_eq rollbar_access_token "") && ltb (len rollbar_access_token) 5
    then panic
    else ok log

-- AtomicLevel.SetLevel stores through the pointer.
unfoldable pub store {ℓ} : {Level : Type ℓ} → Option Level → Level → Outcome Level
store none level = panic
store (some old) level = ok level

module _ {ℓ} {Level Log : Type ℓ} where
  abbrev pub no_logger : Logger Level Log
  no_logger = record { log = none; level = none }

  -- the case of the switch for a text in lower case
  unfoldable pub level_of : Zap Level Log → String → Level
  level_of zap level =
      if str_eq level "panic"
      then zap.panic_level
      else if str_eq level "fatal"
      then zap.fatal_level
      else if str_eq level "error"
      then zap.error_level
      else if str_eq level "warn" || str_eq level "warning"
      then zap.warn_level
      else if str_eq level "info"
      then zap.info_level
      else if str_eq level "debug"
      then zap.debug_level
      else zap.info_level

  unfoldable pub get_level : Zap Level Log → String → Level
  unfolding level_of
  get_level zap level = level_of zap (zap.to_lower level)

  -- Init, whose argument `encoding` is nowhere read; the config of Rollbar is known by its token.
  unfoldable pub init :
      Zap Level Log
      → String
      → List String
      → Option String
      → Logger Level Log
      → Outcome (Logger Level Log)
  unfolding get_level with_rollbar
  init zap log_level log_outputs rollbar_config logger = do
    log ← zap.build (get_level zap log_level) log_outputs
    log ← with_rollbar rollbar_config log
    ok (record logger { log = some log })

  unfoldable pub set_level : Zap Level Log → String → Logger Level Log → Outcome (Logger Level Log)
  unfolding get_level store
  set_level zap log_level logger = do
    level ← store logger.level (get_level zap log_level)
    ok (record logger { level = some level })

-- the texts that /loglevel takes
unfoldable pub is_level : String → Bool
is_level l =
    str_eq l "panic"
    || str_eq l "fatal"
    || str_eq l "error"
    || str_eq l "warn"
    || str_eq l "info"
    || str_eq l "debug"

-- The handler of /loglevel on the parameter `level`: the status, and what is left of the logger.
unfoldable pub log_level {ℓ} :
    {Level Log : Type ℓ}
    → Zap Level Log
    → String
    → Logger Level Log
    → Outcome (ℕ × Logger Level Log)
log_level zap l logger =
    if str_eq l ""
    then ok (400, logger)
    else if not (is_level l)
    then ok (400, logger)
    else (do logger ← set_level zap l logger; ok (200, logger))
