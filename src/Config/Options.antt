-- ===== src/Config/Options.antt =====
-- The command line of config/runtime_config.hpp: `CommonOptions::consume`, `argument_value` and
-- `parse_common_options`.
pub mod RoundTrip
use ecat_middleware_advr.Prelude.{
  ℕ, ◌≡◌, Bool, true, false, ◌&&◌, ◌||◌, not, List, [], ◌∷◌, ◌++◌, Option, none, some,
  if◌then◌else◌, Text, codes, text_eq, Result, ok, err, ◌>>=◌, ◌==◌,
}
use ecat_middleware_advr.Config.Yaml.{Yaml, ConfigException, config_error, Outcome}
use ecat_middleware_advr.Config.File.{unsigned_value}
use ecat_middleware_advr.Config.Runtime.{RuntimeOverrides}

pub record CommonOptions : Type 0 where
  pub config_path : Text
  pub runtime : RuntimeOverrides
  pub help : Bool

abbrev pub no_overrides : RuntimeOverrides
no_overrides = record { publishers = none; subscribers = none; service = none }

abbrev pub default_options : CommonOptions
default_options = record { config_path = []; runtime = no_overrides; help = false }

-- The member of `RuntimeOverrides` that `target` points to.
pub data Rate : Type 0 where
  publishers subscribers service : Rate

unfoldable pub target_of : Text → Option Rate
target_of flag =
    if text_eq flag (codes "--rate-publishers") || text_eq flag (codes "--rate_publishers")
    then some Rate.publishers
    else if text_eq flag (codes "--rate-subscribers") || text_eq flag (codes "--rate_subscribers")
    then some Rate.subscribers
    else if text_eq flag (codes "--rate-service") || text_eq flag (codes "--rate_service")
    then some Rate.service
    else none

abbrev pub set_rate : Rate → ℕ → CommonOptions → CommonOptions
set_rate Rate.publishers hz o = record o { runtime = record o.runtime { publishers = some hz } }
set_rate Rate.subscribers hz o = record o { runtime = record o.runtime { subscribers = some hz } }
set_rate Rate.service hz o = record o { runtime = record o.runtime { service = some hz } }

abbrev pub is_help : Text → Bool
is_help flag = text_eq flag (codes "--help") || text_eq flag (codes "-h")

-- `rfind("--", 0) == 0`.
unfoldable pub is_flag : Text → Bool
is_flag (a ∷ b ∷ rest) = a == b'-' && b == b'-'
is_flag _ = false

module _ (y : Yaml) where
  -- `none` is an unknown flag.
  unfoldable pub set_target :
      CommonOptions → Text → Text → Option Rate → Outcome (Option CommonOptions)
  set_target o flag text none = ok none
  set_target o flag text (some rate) =
      unsigned_value y (y.single (codes "rate") text) (codes "rate") 0 flag >>= λ hz.
      ok (some (set_rate rate hz o))

  unfoldable pub consume : CommonOptions → Text → Text → Outcome (Option CommonOptions)
  unfolding set_target
  consume o flag text =
      if text_eq flag (codes "--config")
      then ok (some (record o { config_path = text }))
      else set_target o flag text (target_of flag)

  -- What `parse_common_options` makes of the result of `consume`.
  unfoldable pub known : Text → Option CommonOptions → Outcome CommonOptions
  known flag none = err (config_error (codes "Unknown argument: " ++ flag))
  known flag (some o) = ok o

  abbrev pub missing_value : Text → Outcome CommonOptions
  missing_value flag = err (config_error (codes "Missing value after " ++ flag))

  -- The loop of `parse_common_options` over the arguments behind the program's name.
  unfoldable pub parse_arguments : CommonOptions → List Text → Outcome CommonOptions
  unfolding known
  parse_arguments o [] = ok o
  parse_arguments o (flag ∷ []) =
      if is_help flag then ok (record o { help = true }) else missing_value flag
  parse_arguments o (flag ∷ text ∷ rest) =
      let helped = parse_arguments (record o { help = true }) (text ∷ rest) in
      let consumed =
        consume o flag text >>= λ result. known flag result >>= λ next. parse_arguments next rest in
      if is_help flag then helped else if is_flag text then missing_value flag else consumed

  unfoldable pub parse_common_options : List Text → Outcome CommonOptions
  parse_common_options = parse_arguments default_options
