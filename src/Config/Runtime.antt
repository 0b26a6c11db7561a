-- ===== src/Config/Runtime.antt =====
-- config/runtime_config.hpp of core/advrf_middleware_core: the rates of the adapters.
pub mod Rates
use ecat_middleware_advr.Prelude.{
  ℕ, ◌/◌, ◌≡◌, Bool, true, false, ◌&&◌, ◌||◌, not, List, [], ◌∷◌, ◌++◌, Option, none, some,
  if◌then◌else◌, ltb, Text, codes, Result, ok, err, ◌>>=◌, ◌>>◌, guard, ◌==◌,
}
use ecat_middleware_advr.Config.Yaml.{Yaml, ConfigException, config_error, Outcome}
use ecat_middleware_advr.Config.File.{section, check_keys, unsigned_value}
use ecat_middleware_advr.Config.Robot.{RobotConfig, parse_runtime_robot_config}
use ecat_middleware_advr.Config.Robot

pub record RuntimeConfig : Type 0 where
  pub rate_publishers : ℕ
  pub rate_subscribers : ℕ
  pub rate_service : ℕ

abbrev pub default_runtime : RuntimeConfig
default_runtime = record { rate_publishers = 1000; rate_subscribers = 100; rate_service = 10 }

abbrev pub in_range : ℕ → Bool
in_range hz = not (hz == 0 || ltb 1000000 hz)

-- Microseconds.
unfoldable pub period_from_rate : ℕ → Outcome ℕ
period_from_rate hz =
    guard (in_range hz) (config_error (codes "rate: must be between 1 and 1000000 Hz"))
    >> ok (1000000 / hz)

abbrev check_rate : ℕ → Text → Outcome (Unit {0})
check_rate hz field =
    guard (in_range hz)
      (config_error (codes "runtime." ++ field ++ codes ": must be between 1 and 1000000 Hz"))

unfoldable pub validate : RuntimeConfig → Outcome (Unit {0})
validate cfg =
    check_rate cfg.rate_publishers (codes "publishers_hz")
    >> (check_rate cfg.rate_subscribers (codes "subscribers_hz")
        >> check_rate cfg.rate_service (codes "service_hz"))

pub record CommonConfig : Type 0 where
  pub robot : RobotConfig
  pub runtime : RuntimeConfig

unfoldable pub validate_common : CommonConfig → Outcome (Unit {0})
unfolding validate
validate_common cfg = Robot.validate cfg.robot >> validate cfg.runtime

-- The rates that the command line gives.
pub record RuntimeOverrides : Type 0 where
  pub publishers : Option ℕ
  pub subscribers : Option ℕ
  pub service : Option ℕ

abbrev pub or_else : Option ℕ → ℕ → ℕ
or_else none old = old
or_else (some new) old = new

unfoldable pub apply : RuntimeOverrides → RuntimeConfig → RuntimeConfig
apply o cfg = record {
  rate_publishers = or_else o.publishers cfg.rate_publishers;
  rate_subscribers = or_else o.subscribers cfg.rate_subscribers;
  rate_service = or_else o.service cfg.rate_service;
}

module _ (y : Yaml) where
  open y use {Node}

  unfoldable pub parse_runtime_config : Node → Outcome RuntimeConfig
  parse_runtime_config root = section y root (codes "runtime") [] >>= λ node.
      check_keys y node (codes "publishers_hz" ∷ codes "subscribers_hz" ∷ codes "service_hz" ∷ [])
        (codes "runtime")
      >> (unsigned_value y node (codes "publishers_hz") 1000 (codes "runtime") >>= λ publishers.
          unsigned_value y node (codes "subscribers_hz") 100 (codes "runtime") >>= λ subscribers.
          unsigned_value y node (codes "service_hz") 10 (codes "runtime") >>= λ service.
          ok (record {
            rate_publishers = publishers;
            rate_subscribers = subscribers;
            rate_service = service;
          }))

  -- `env` is what EC_CFG leads to, where it is set.
  unfoldable pub parse_common_config : Node → Option (Outcome Node) → Outcome CommonConfig
  parse_common_config root env = parse_runtime_robot_config y root env >>= λ robot.
      parse_runtime_config root >>= λ runtime. ok (record { robot = robot; runtime = runtime })
