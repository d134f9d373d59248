-- ===== src/Worker/Logger/Examples.antt =====
-- A logger at concrete texts, and the theorem applied to it.
use terra_worker.Prelude.{ℕ, ◌≡◌, refl, some, none, [], ◌∷◌}
use terra_worker.Go.Outcome.{ok, panic}
use terra_worker.Worker.Logger.{
  Zap, Logger, no_logger, level_of, get_level, with_rollbar, init, is_level, log_level,
}
use terra_worker.Worker.Logger.Unset.{log_level-init}

-- levels by number, and a log that is known by its level
abbrev zap : Zap ℕ ℕ
zap = record {
  to_lower = λ s. s;
  panic_level = 4;
  fatal_level = 5;
  error_level = 2;
  warn_level = 1;
  info_level = 0;
  debug_level = 6;
  build = λ level log_outputs. ok level;
}

abbrev logger : Logger ℕ ℕ
logger = record { log = some 0; level = none }

init_info : init zap "info" ("stderr" ∷ []) (some "") no_logger ≡ ok logger
unfolding init get_level level_of with_rollbar
init_info = refl

log_level-init_example : log_level zap "debug" logger ≡ panic
unfolding is_level
log_level-init_example =
    log_level-init zap "info" ("stderr" ∷ []) (some "") logger init_info "debug"
