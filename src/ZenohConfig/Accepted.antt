-- ===== src/ZenohConfig/Accepted.antt =====
-- Which settings config/plugin_config.hpp of plugins/advrf_zenoh_plugin accepts.
use ecat_middleware_advr.Prelude.{
  ◌≡◌, refl, ap, subst, ◌↔◌, ◌≤◌, ◌≢◌, Bool, true, false, ◌||◌, not, List, [], ◌∷◌, Option, Text,
  is_empty, ok, ◌>>◌, guard, >>=-eq-ok, ok-injective,
}
use ecat_middleware_advr.Config.Yaml.{Yaml, Outcome}
use ecat_middleware_advr.Config.Robot.{RobotConfig, parse_runtime_robot_config}
use ecat_middleware_advr.Config.Robot
use ecat_middleware_advr.Config.Robot.Accepted.{IsAccepted, parse_runtime_robot_config-IsAccepted}
use ecat_middleware_advr.Config.Runtime.{
  CommonConfig, RuntimeConfig, parse_common_config, parse_runtime_config, validate_common, validate,
}
use ecat_middleware_advr.Config.Runtime.Rates.{validate_iff}
use ecat_middleware_advr.Config.Paths.{FileSystem, ConfigFile}
use ecat_middleware_advr.Config.Loaded.{runtime_map}
use ecat_middleware_advr.ZenohConfig.{
  PluginConfig, is_cdr, is_missing, parse_transport, parse_plugin_config, validate_plugin,
}

not_empty : {A : Type 0} (xs : List A) → xs ≢ [] → is_empty xs ≡ false
not_empty [] h = absurd (h refl)
not_empty (x ∷ xs) h = refl

validate-accepted : (cfg : RobotConfig) → IsAccepted cfg → Robot.validate cfg ≡ ok tt
unfolding Robot.validate
validate-accepted cfg h =
    rw (h.named, not_empty cfg.map_ecat_id h.some_device, h.one_component) refl

both_pass :
    {E : Type 0} (a b : Bool) (e f : E)
    → ((guard a e >> guard (not b) f) ≡ ok tt) ↔ ((a ≡ true) × (b ≡ false))
both_pass true true e f = ((λ h. cc), (λ h. cc))
both_pass true false e f = ((λ h. (refl, refl)), (λ h. refl))
both_pass false b e f = ((λ h. cc), (λ h. cc))

parse_common_config-IsAccepted :
    (y : Yaml) (root : y.Node) (env : Option (Outcome y.Node)) {common : CommonConfig}
    → parse_common_config y root env ≡ ok common
    → IsAccepted common.robot
unfolding parse_common_config
parse_common_config-IsAccepted y root env {common} h =
    let (robot, parsed, h₁) = >>=-eq-ok (parse_runtime_robot_config y root env) _ h in
    let (runtime, _, h₂) = >>=-eq-ok (parse_runtime_config y root) _ h₁ in
    subst IsAccepted (ap (λ (c : CommonConfig). c.robot) (ok-injective h₂))
      (parse_runtime_robot_config-IsAccepted y root env parsed)

module _ (y : Yaml) (fs : FileSystem y.Node) where
  open y use {Node}
  open fs use {FilePath}

  parse_plugin_config-robot :
      (env : Option Text) (file : ConfigFile Node FilePath) {cfg : PluginConfig FilePath}
      → parse_plugin_config y fs env file ≡ ok cfg
      → IsAccepted cfg.common.robot
  unfolding parse_plugin_config
  parse_plugin_config-robot env file {cfg} h =
      let (common, parsed, h₁) =
        >>=-eq-ok (parse_common_config y file.root (runtime_map y fs env)) _ h in
      let (transport, _, h₂) = >>=-eq-ok (parse_transport y fs file) _ h₁ in
      subst (λ (c : PluginConfig FilePath). IsAccepted c.common.robot) (ok-injective h₂)
        (parse_common_config-IsAccepted y file.root (runtime_map y fs env) parsed)

  -- Each rate has a period.
  abbrev pub RatesInRange : RuntimeConfig → Type 0
  RatesInRange cfg =
      (1 ≤ cfg.rate_publishers)
      × (cfg.rate_publishers ≤ 1000000)
      × (1 ≤ cfg.rate_subscribers)
      × (cfg.rate_subscribers ≤ 1000000)
      × (1 ≤ cfg.rate_service)
      × (cfg.rate_service ≤ 1000000)

  -- In settings that `parse_plugin_config` returns, the robot is accepted: it has a name of one topic
  -- component, and devices with positive, distinct 32-bit IDs and names. `validate` then accepts them
  -- exactly if the three rates are 1 to 1000000, CDR is supported where it is asked for, and the session's
  -- file is there if one is named.
  pub parse_plugin_config_lem :
      (ros2_support : Bool) (is_regular_file : FilePath → Bool) (env : Option Text)
      (file : ConfigFile Node FilePath) (cfg : PluginConfig FilePath)
      → parse_plugin_config y fs env file ≡ ok cfg
      → IsAccepted cfg.common.robot
        × ((validate_plugin y fs ros2_support is_regular_file cfg ≡ ok tt) ↔ (
            RatesInRange cfg.common.runtime
            × ((ros2_support || not (is_cdr cfg.transport.wire_format)) ≡ true)
            × (is_missing y fs is_regular_file cfg.transport.session_config ≡ false)))
  unfolding validate_plugin validate_common
  parse_plugin_config_lem ros2_support is_regular_file env file cfg h =
      let accepted = parse_plugin_config-robot env file h in
      let robot = validate-accepted cfg.common.robot accepted in
      let rates = validate_iff cfg.common.runtime in
      (
        accepted,
        rw robot (
          (λ k.
              let (_, valid, checked) = >>=-eq-ok (validate cfg.common.runtime) _ k in
              let (supported, found) = (both_pass _ _ _ _).0 checked in
              (rates.0 valid, supported, found)),
          (λ k. rw (rates.1 k.0) ((both_pass _ _ _ _).1 (k.1, k.2))),
        ),
      )
