-- ===== src/Examples/Files.antt =====
-- The theorems on the paths and files of the configuration, at concrete inputs.
use ecat_middleware_advr.Prelude.{
  ◌↔◌, suc, ◌≡◌, ◌++◌, refl, true, false, [], ◌∷◌, none, some, Text, codes, arith, length, text_eq,
  ok, all_digits, decimal_from, contains, to_string,
}
use ecat_middleware_advr.Config.File.{
  load, check_root, section, check_keys, check_entries, key_of, has_text, value, unsigned_value,
  parse_unsigned,
}
use ecat_middleware_advr.Config.Robot.{
  RobotConfig, parse_runtime_robot_config, parse_robot_config, parse_with_map, merge_robot_identity,
  merge_robot_id_map, merge_joints, merge_joint, store_joint, joint_map, text_at, set_name,
  empty_robot,
}
use ecat_middleware_advr.Config.Robot
use ecat_middleware_advr.Config.Robot.Accepted.{IsAccepted}
use ecat_middleware_advr.Config.Reference.{replace_from, replace_all}
use ecat_middleware_advr.Config.Reference.Expanded.{substituted, replace_all-substituted}
use ecat_middleware_advr.Config.Paths.{FileSystem, ConfigFile, load_config}
use ecat_middleware_advr.Config.Loaded.{
  runtime_map, or_nothing, load_from_ecat_config, load_from_robot_id_map, load_robot_config,
}
use ecat_middleware_advr.Config.Loaded.Trusted.{load_robot_config-IsAccepted}
use ecat_middleware_advr.Config.Runtime.{parse_common_config, parse_runtime_config, default_runtime}
use ecat_middleware_advr.ZenohSubscribers.{WireFormat}
use ecat_middleware_advr.ZenohConfig.{
  PluginConfig, parse_wire_format, parse_transport, parse_plugin_config, validate_plugin,
}
use ecat_middleware_advr.ZenohConfig.Accepted.{RatesInRange, parse_plugin_config_lem}
use ecat_middleware_advr.Examples.Samples.{Document, documents, robot_file}

replace_all-substituted_example :
    (replace_from
        (suc (length (codes "$PWD/map")))
        (codes "$PWD")
        (codes "/etc")
        (codes "$PWD/map")
        0
      ≡ some (substituted (codes "$PWD") (codes "/etc") 0 (codes "$PWD/map")))
    × (replace_all (codes "$PWD") (codes "/etc") (codes "$PWD/map")
        ≡ substituted (codes "$PWD") (codes "/etc") 0 (codes "$PWD/map"))
replace_all-substituted_example =
    replace_all-substituted (codes "$PWD") (codes "/etc") (codes "$PWD/map") (omega arith)

-- A path is the list of its characters; all paths are absolute and lead to the file of a robot, which
-- stands in /etc.
abbrev robot_files : Document → FileSystem Document
robot_files document = record {
  FilePath = Text;
  of_string = λ text. text;
  string = λ path. path;
  is_absolute = λ path. true;
  parent_path = λ path. codes "/etc";
  join = λ directory path. directory ++ codes "/" ++ path;
  lexically_normal = λ path. path;
  canonical = λ text. ok text;
  absolute = λ path. ok path;
  load_file = λ path. ok document;
}

-- The file with the reference to the map of the devices.
abbrev main_file : Document
main_file =
    Document.pair (codes "robot")
      (Document.pair (codes "robot_id_map_path") (Document.scalar (codes "$PWD/m")) Document.empty)
      Document.empty

abbrev files : FileSystem Document
files = robot_files main_file

abbrev kyon : RobotConfig
kyon = record {
  robot_name = codes "kyon";
  ns = [];
  map_ecat_id = (1, codes "knee") ∷ (2, codes "hip") ∷ [];
}

loaded :
    load_robot_config documents (robot_files robot_file) none (codes "map") (codes "names")
    ≡ ok (some kyon)
unfolding load_robot_config or_nothing load_from_ecat_config load_from_robot_id_map load_config load
    check_root merge_robot_identity merge_robot_id_map merge_joints merge_joint store_joint
    joint_map text_at set_name Robot.validate section check_keys check_entries key_of has_text value
    unsigned_value parse_unsigned text_eq all_digits decimal_from contains to_string
loaded = refl

load_robot_config-IsAccepted_example : IsAccepted kyon
load_robot_config-IsAccepted_example =
    load_robot_config-IsAccepted documents (robot_files robot_file) none (codes "map")
      (codes "names") loaded

-- The settings of the Zenoh plugin in the file of the robot: the defaults.
abbrev robot_config : ConfigFile Document Text
robot_config = record { root = robot_file; path = codes "/etc/c" }

abbrev zenoh_defaults : PluginConfig Text
zenoh_defaults = record {
  common = record { robot = kyon; runtime = default_runtime };
  transport = record { session_config = none; wire_format = WireFormat.protobuf };
}

parsed_zenoh :
    parse_plugin_config documents (robot_files robot_file) none robot_config ≡ ok zenoh_defaults
unfolding parse_plugin_config parse_transport parse_wire_format parse_common_config
    parse_runtime_config runtime_map parse_runtime_robot_config parse_robot_config parse_with_map
    merge_robot_identity merge_robot_id_map merge_joints merge_joint store_joint joint_map text_at
    set_name Robot.validate section check_keys check_entries key_of has_text value unsigned_value
    parse_unsigned text_eq all_digits decimal_from contains to_string
parsed_zenoh = refl

parse_plugin_config_lem_example :
    IsAccepted kyon
    × ((validate_plugin documents (robot_files robot_file) true (λ path. true) zenoh_defaults
          ≡ ok tt)
        ↔ (RatesInRange documents (robot_files robot_file) default_runtime
            × (true ≡ true)
            × (false ≡ false)))
parse_plugin_config_lem_example =
    parse_plugin_config_lem documents (robot_files robot_file) true (λ path. true) none robot_config
      zenoh_defaults parsed_zenoh
