-- ===== src/Config/Loaded/Trusted.antt =====
-- Which configurations the loading of config/robot_config.hpp in core/advrf_middleware_core lets through.
use ecat_middleware_advr.Prelude.{
  ◌≡◌, sym, ap, subst, inl, inr, Bool-cases, List, [], ◌∷◌, Option, none, some, Text, text_eq, ok,
  err, ◌>>=◌, >>=-eq-ok, ok-injective, All, Distinct,
}
use ecat_middleware_advr.Config.Yaml.{Yaml, config_error, yaml_error, Outcome}
use ecat_middleware_advr.Config.Robot.{
  RobotConfig, empty_robot, validate, parse_runtime_robot_config, ids_of,
}
use ecat_middleware_advr.Config.Robot.Accepted.{
  IsAccepted, IsDevice, IsDeviceMap, validate_lem, merge_robot_identity-map,
  merge_robot_id_map-IsDeviceMap, parse_runtime_robot_config-IsAccepted,
}
use ecat_middleware_advr.Config.Paths.{FileSystem}
use ecat_middleware_advr.Config.Loaded.{
  or_nothing, BuilderCall, root_at, runtime_map, load_from_ecat_config, load_from_robot_id_map,
  build, load_robot_config, builder_step, builder_steps,
}

given_or : {A : Type 0} → A → Option A → A
given_or a none = a
given_or a (some b) = b

some-or_nothing : {A : Type 0} {a : A} (o : Outcome A) → or_nothing o ≡ ok (some a) → o ≡ ok a
unfolding or_nothing given_or
some-or_nothing (ok b) h = ap ok (ap (given_or b) (ok-injective h))
some-or_nothing (err (config_error what)) h = cc
some-or_nothing (err (yaml_error what)) h = cc

module _ (y : Yaml) (fs : FileSystem y.Node) where
  open fs use {of_string}

  load_from_ecat_config-IsDeviceMap :
      (cfg : RobotConfig) (path : Text) {next : RobotConfig}
      → load_from_ecat_config y fs cfg path ≡ ok next
      → IsDeviceMap cfg
      → IsDeviceMap next
  unfolding load_from_ecat_config
  load_from_ecat_config-IsDeviceMap cfg path h d =
      let (root, _, h₁) = >>=-eq-ok (root_at y fs (of_string path)) _ h in
      subst (λ m. All IsDevice m × Distinct (ids_of m))
        (sym (merge_robot_identity-map y cfg root h₁)) d

  load_from_robot_id_map-IsDeviceMap :
      (cfg : RobotConfig) (path : Text) {next : RobotConfig}
      → load_from_robot_id_map y fs cfg path ≡ ok next
      → IsDeviceMap cfg
      → IsDeviceMap next
  unfolding load_from_robot_id_map
  load_from_robot_id_map-IsDeviceMap cfg path h d =
      let (root, _, h₁) = >>=-eq-ok (root_at y fs (of_string path)) _ h in
      merge_robot_id_map-IsDeviceMap y cfg root h₁ d

  build-IsAccepted :
      (merged : RobotConfig) {cfg : RobotConfig}
      → build y fs merged ≡ ok cfg
      → IsDeviceMap merged
      → IsAccepted cfg
  build-IsAccepted merged h d =
      let (_, valid, h₁) = >>=-eq-ok (validate merged) _ h in
      let (named, some_device, one_component) = validate_lem merged valid in
      subst IsAccepted (ok-injective h₁) (record {
        named = named;
        one_component = one_component;
        some_device = some_device;
        devices = d.0;
        distinct = d.1;
      })

  builder_step-IsDeviceMap :
      (call : BuilderCall) (cfg : RobotConfig) {next : RobotConfig}
      → builder_step y fs call cfg ≡ ok next
      → IsDeviceMap cfg
      → IsDeviceMap next
  unfolding builder_step
  builder_step-IsDeviceMap (BuilderCall.from_ecat_config path) cfg h d =
      load_from_ecat_config-IsDeviceMap cfg path h d
  builder_step-IsDeviceMap (BuilderCall.from_robot_id_map path) cfg h d =
      load_from_robot_id_map-IsDeviceMap cfg path h d

  builder_steps-IsDeviceMap :
      (calls : List BuilderCall) (cfg : RobotConfig) {next : RobotConfig}
      → builder_steps y fs calls cfg ≡ ok next
      → IsDeviceMap cfg
      → IsDeviceMap next
  unfolding builder_steps
  builder_steps-IsDeviceMap [] cfg h d = subst IsDeviceMap (ok-injective h) d
  builder_steps-IsDeviceMap (call ∷ calls) cfg h d =
      let (middle, h₁, h₂) = >>=-eq-ok (builder_step y fs call cfg) (builder_steps y fs calls) h in
      builder_steps-IsDeviceMap calls middle h₂ (builder_step-IsDeviceMap call cfg h₁ d)

  load_both-IsAccepted :
      (map_path identity_path : Text) {cfg : RobotConfig}
      → (load_from_robot_id_map y fs empty_robot map_path >>= λ mapped.
          load_from_ecat_config y fs mapped identity_path >>= build y fs)
        ≡ ok cfg
      → IsAccepted cfg
  load_both-IsAccepted map_path identity_path h =
      let (mapped, h_mapped, h₁) =
        >>=-eq-ok (load_from_robot_id_map y fs empty_robot map_path) _ h in
      let (named, h_named, h₂) =
        >>=-eq-ok (load_from_ecat_config y fs mapped identity_path) (build y fs) h₁ in
      build-IsAccepted named h₂ (
        load_from_ecat_config-IsDeviceMap mapped identity_path h_named
          (load_from_robot_id_map-IsDeviceMap empty_robot map_path h_mapped (tt, tt)))

  load_one-IsAccepted :
      (env : Option Text) (path : Text) {cfg : RobotConfig}
      → (root_at y fs (of_string path) >>= λ root.
          parse_runtime_robot_config y root (runtime_map y fs env))
        ≡ ok cfg
      → IsAccepted cfg
  load_one-IsAccepted env path h =
      let (root, _, h₁) = >>=-eq-ok (root_at y fs (of_string path)) _ h in
      parse_runtime_robot_config-IsAccepted y root (runtime_map y fs env) h₁

  -- Every configuration that `load_robot_config` returns is accepted: it has a name of one topic
  -- component, and at least one device, with positive, distinct 32-bit IDs and names that are not empty.
  pub load_robot_config-IsAccepted :
      (env : Option Text) (map_path identity_path : Text) {cfg : RobotConfig}
      → load_robot_config y fs env map_path identity_path ≡ ok (some cfg)
      → IsAccepted cfg
  unfolding load_robot_config
  load_robot_config-IsAccepted env map_path identity_path h =
      let loaded = some-or_nothing _ h in
      elim (Bool-cases (text_eq map_path identity_path)) [
        | inl e ↦ load_one-IsAccepted env map_path (rw e at loaded)
        | inr e ↦ load_both-IsAccepted map_path identity_path (rw e at loaded)
      ]

  -- Every configuration that a builder builds, after any calls that have thrown nothing, is accepted in
  -- this sense.
  pub builder_steps-IsAccepted :
      (calls : List BuilderCall) {cfg : RobotConfig}
      → (builder_steps y fs calls empty_robot >>= build y fs) ≡ ok cfg
      → IsAccepted cfg
  builder_steps-IsAccepted calls h =
      let (merged, steps, built) =
        >>=-eq-ok (builder_steps y fs calls empty_robot) (build y fs) h in
      build-IsAccepted merged built (builder_steps-IsDeviceMap calls empty_robot steps (tt, tt))
