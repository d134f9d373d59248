-- ===== src/Worker/Logger/Unset.antt =====
-- The level of the logger cannot be changed.
use terra_worker.Prelude.{
  String, true, false, inl, inr, Option, none, some, List, ◌≡◌, refl, ap, sym, Bool-cases, str_eq,
  eq_iff, if◌then◌else◌,
}
use terra_worker.Go.Outcome.{ok, panic, ok_of_bind, ok-injective}
use terra_worker.Worker.Logger.{
  Zap, Logger, no_logger, get_level, with_rollbar, init, store, set_level, is_level, log_level,
}

empty_is_no_level : (l : String) → str_eq l "" ≡ true → is_level l ≡ false
unfolding is_level
empty_is_no_level l h = let e : l ≡ "" = (eq_iff l "").0 h in rw e refl

module _ {ℓ} {Level Log : Type ℓ} (zap : Zap Level Log) where
  level-init :
      (text : String) (log_outputs : List String) (rollbar_config : Option String)
      (before logger : Logger Level Log)
      → init zap text log_outputs rollbar_config before ≡ ok logger
      → logger.level ≡ before.level
  unfolding init
  level-init text log_outputs rollbar_config before logger h =
      let (log, built, later) = ok_of_bind (zap.build (get_level zap text) log_outputs) _ h in
      let (log', with_it, whole) = ok_of_bind (with_rollbar rollbar_config log) _ later in
      ap (λ l. l.level) (sym (ok-injective (record before { log = some log' }) logger whole))

  set_level_nil :
      (text : String) (logger : Logger Level Log)
      → logger.level ≡ none
      → set_level zap text logger ≡ panic
  unfolding set_level store
  set_level_nil text logger h = rw h refl

  -- After a first Init that succeeds, the handler of /loglevel panics on each of the six levels
  -- that it takes, and answers any other text with the status 400, the logger unchanged.
  pub log_level-init :
      (text : String) (log_outputs : List String) (rollbar_config : Option String)
      (logger : Logger Level Log)
      → init zap text log_outputs rollbar_config no_logger ≡ ok logger
      → (l : String) → log_level zap l logger ≡ (if is_level l then panic else ok (400, logger))
  unfolding log_level
  log_level-init text log_outputs rollbar_config logger h l =
      let unset = level-init text log_outputs rollbar_config no_logger logger h in
      let stopped = set_level_nil l logger unset in
      elim (Bool-cases (str_eq l "")) [
        | inl empty ↦ rw (empty, empty_is_no_level l empty) refl
        | inr not_empty ↦ elim (Bool-cases (is_level l)) [
          | inl is ↦ rw (not_empty, is, stopped) refl
          | inr not_one ↦ rw (not_empty, not_one) refl
        ]
      ]
