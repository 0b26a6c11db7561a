-- ===== src/ZenohConfig.antt =====
-- config/plugin_config.hpp of plugins/advrf_zenoh_plugin: the settings of the plugin. The file system is that
-- of Config.Paths; `is_regular_file` and whether ROS 2 support was compiled in are arguments.
pub mod Accepted
use ecat_middleware_advr.Prelude.{
  Bool, true, false, ◌&&◌, ◌||◌, not, [], ◌∷◌, ◌++◌, Option, none, some, if◌then◌else◌, Text, codes,
  text_eq, is_empty, ok, err, ◌>>=◌, ◌>>◌, guard,
}
use ecat_middleware_advr.Config.Yaml.{Yaml, config_error, Outcome}
use ecat_middleware_advr.Config.File.{section, check_keys, value}
use ecat_middleware_advr.Config.Runtime.{CommonConfig, parse_common_config, validate_common}
use ecat_middleware_advr.Config.Paths.{FileSystem, ConfigFile, resolve}
use ecat_middleware_advr.Config.Loaded.{runtime_map}
use ecat_middleware_advr.ZenohSubscribers.{WireFormat}

unfoldable pub parse_wire_format : Text → Outcome WireFormat
parse_wire_format text =
    if text_eq text (codes "protobuf")
    then ok WireFormat.protobuf
    else if text_eq text (codes "ros2cdr")
    then ok WireFormat.ros2_cdr
    else err (config_error (codes "zenoh.wire_format: expected protobuf or ros2cdr"))

-- The empty path is `none`.
pub record ZenohConfig (FilePath : Type 0) : Type 0 where
  pub session_config : Option FilePath
  pub wire_format : WireFormat

pub record PluginConfig (FilePath : Type 0) : Type 0 where
  pub common : CommonConfig
  pub transport : ZenohConfig FilePath

abbrev pub is_cdr : WireFormat → Bool
is_cdr WireFormat.protobuf = false
is_cdr WireFormat.ros2_cdr = true

module _ (y : Yaml) (fs : FileSystem y.Node) where
  open y use {Node, as_string}
  open fs use {FilePath, string}

  abbrev pub session_path : ConfigFile Node FilePath → Text → Option FilePath
  session_path file [] = none
  session_path file (c ∷ path) = some (resolve y fs file (c ∷ path))

  -- The section of the transport.
  unfoldable pub parse_transport : ConfigFile Node FilePath → Outcome (ZenohConfig FilePath)
  unfolding parse_wire_format
  parse_transport file = section y file.root (codes "zenoh") [] >>= λ node.
      check_keys y node (codes "session_config" ∷ codes "wire_format" ∷ []) (codes "zenoh")
      >> (value y as_string node (codes "session_config") [] (codes "zenoh") >>= λ path.
          value y as_string node (codes "wire_format") (codes "protobuf") (codes "zenoh")
          >>= λ text. parse_wire_format text >>= λ wire_format.
              ok (record { session_config = session_path file path; wire_format = wire_format }))

  -- The value of EC_CFG is an argument.
  unfoldable pub parse_plugin_config :
      Option Text → ConfigFile Node FilePath → Outcome (PluginConfig FilePath)
  unfolding parse_transport
  parse_plugin_config env file =
      parse_common_config y file.root (runtime_map y fs env) >>= λ common.
      parse_transport file >>= λ transport. ok (record { common = common; transport = transport })

  abbrev pub is_missing : (FilePath → Bool) → Option FilePath → Bool
  is_missing is_regular_file none = false
  is_missing is_regular_file (some path) = not (is_regular_file path)

  abbrev path_text : Option FilePath → Text
  path_text none = []
  path_text (some path) = string path

  unfoldable pub validate_plugin :
      Bool → (FilePath → Bool) → PluginConfig FilePath → Outcome (Unit {0})
  validate_plugin ros2_support is_regular_file cfg =
      validate_common cfg.common
      >> (guard (ros2_support || not (is_cdr cfg.transport.wire_format))
            (config_error (codes "zenoh.wire_format: ros2cdr requires ZENOH_ROS2_SUPPORT=ON"))
          >> guard (not (is_missing is_regular_file cfg.transport.session_config)) (
              config_error (
                codes "zenoh.session_config: file does not exist: "
                ++ path_text cfg.transport.session_config)))
