-- ===== src/Config/Loaded.antt =====
-- Loading of config/robot_config.hpp of core/advrf_middleware_core: the robot from the file of its devices
-- and that of its identity, and `RobotConfigBuilder`.
pub mod Trusted
use ecat_middleware_advr.Prelude.{
  Bool, List, [], ◌∷◌, Option, none, some, if◌then◌else◌, Text, text_eq, Result, ok, err, ◌>>=◌,
  ◌>>◌,
}
use ecat_middleware_advr.Config.Yaml.{Yaml, ConfigException, config_error, yaml_error, Outcome}
use ecat_middleware_advr.Config.Robot.{
  RobotConfig, empty_robot, merge_robot_identity, merge_robot_id_map, validate,
  parse_runtime_robot_config,
}
use ecat_middleware_advr.Config.Paths.{FileSystem, ConfigFile, load_config, robot_id_map_path}

-- `catch (const ConfigError&) { return std::nullopt; }`: any other exception passes.
unfoldable pub or_nothing : {A : Type 0} → Outcome A → Outcome (Option A)
or_nothing (ok a) = ok (some a)
or_nothing (err (config_error what)) = ok none
or_nothing (err (yaml_error what)) = err (yaml_error what)

-- The calls of a builder before `build`.
pub data BuilderCall : Type 0 where
  from_ecat_config : Text → BuilderCall
  from_robot_id_map : Text → BuilderCall

module _ (y : Yaml) (fs : FileSystem y.Node) where
  open y use {Node}
  open fs use {FilePath, of_string}

  abbrev pub root_at : FilePath → Outcome Node
  root_at path = load_config y fs path >>= λ file. ok file.root

  -- What EC_CFG leads to for `parse_runtime_robot_config`, where it is set.
  unfoldable pub runtime_map : Option Text → Option (Outcome Node)
  unfolding load_config robot_id_map_path
  runtime_map none = none
  runtime_map (some env) = some (robot_id_map_path y fs (some env) >>= root_at)

  -- The configuration that the reference then holds; after an exception it is as it was.
  unfoldable pub load_from_ecat_config : RobotConfig → Text → Outcome RobotConfig
  unfolding load_config
  load_from_ecat_config cfg path =
      root_at (of_string path) >>= λ root. merge_robot_identity y cfg root

  unfoldable pub load_from_robot_id_map : RobotConfig → Text → Outcome RobotConfig
  unfolding load_config
  load_from_robot_id_map cfg path =
      root_at (of_string path) >>= λ root. merge_robot_id_map y cfg root

  -- `build`: the exception of `validate`, or the configuration.
  abbrev pub build : RobotConfig → Outcome RobotConfig
  build cfg = validate cfg >> ok cfg

  unfoldable pub load_robot_config : Option Text → Text → Text → Outcome (Option RobotConfig)
  unfolding or_nothing load_from_ecat_config load_from_robot_id_map runtime_map load_config
  load_robot_config env map_path identity_path = or_nothing (
      if text_eq map_path identity_path
      then (root_at (of_string map_path) >>= λ root.
          parse_runtime_robot_config y root (runtime_map env))
      else (load_from_robot_id_map empty_robot map_path >>= λ mapped.
          load_from_ecat_config mapped identity_path >>= build))

  -- One call, and a chain of calls up to the first that throws.
  unfoldable pub builder_step : BuilderCall → RobotConfig → Outcome RobotConfig
  unfolding load_from_ecat_config load_from_robot_id_map
  builder_step (BuilderCall.from_ecat_config path) cfg = load_from_ecat_config cfg path
  builder_step (BuilderCall.from_robot_id_map path) cfg = load_from_robot_id_map cfg path

  unfoldable pub builder_steps : List BuilderCall → RobotConfig → Outcome RobotConfig
  unfolding builder_step
  builder_steps [] cfg = ok cfg
  builder_steps (call ∷ calls) cfg = builder_step call cfg >>= builder_steps calls
