-- ===== src/Examples/Settings.antt =====
-- The theorems on the configuration files, the command line and the topics, at concrete inputs.
use ecat_middleware_advr.Prelude.{
  ◌≡◌, ◌≤◌, ◌↔◌, refl, true, false, [], ◌∷◌, none, some, codes, ok, arith, all_digits, decimal_from,
  contains, to_string, text_eq,
}
use ecat_middleware_advr.Config.File.{
  parse_unsigned, section, check_keys, check_entries, key_of, has_text, value, unsigned_value,
}
use ecat_middleware_advr.Config.Robot.{
  RobotConfig, parse_runtime_robot_config, parse_robot_config, parse_with_map, merge_robot_identity,
  merge_robot_id_map, merge_joints, merge_joint, store_joint, joint_map, text_at, set_name,
}
use ecat_middleware_advr.Config.Robot
use ecat_middleware_advr.Config.Robot.Accepted.{IsAccepted, parse_runtime_robot_config-IsAccepted}
use ecat_middleware_advr.Config.Options.{CommonOptions, parse_common_options, is_flag}
use ecat_middleware_advr.Config.Options.RoundTrip.{arguments, parse_common_options-arguments}
use ecat_middleware_advr.Config.Topics.{Topic, TopicsState}
use ecat_middleware_advr.Config.Topics.Shape.{topic_name_injective}
use ecat_middleware_advr.DdsConfig.{
  DdsConfig, default_policy, parse_dds_config, parse_service, parse_qos, is_valid, validate_dds,
}
use ecat_middleware_advr.DdsConfig.Valid.{parse_dds_config-accepted}
use ecat_middleware_advr.Service.{zmq, construct}
use ecat_middleware_advr.Examples.Samples.{Document, documents, robot_file}

abbrev kyon : RobotConfig
kyon = record {
  robot_name = codes "kyon";
  ns = [];
  map_ecat_id = (1, codes "knee") ∷ (2, codes "hip") ∷ [];
}

parsed_kyon : parse_runtime_robot_config documents robot_file none ≡ ok kyon
unfolding parse_runtime_robot_config parse_robot_config parse_with_map merge_robot_identity
    merge_robot_id_map merge_joints merge_joint store_joint joint_map text_at set_name
    Robot.validate section check_keys check_entries key_of has_text value unsigned_value
    parse_unsigned text_eq all_digits decimal_from contains to_string
parsed_kyon = refl

parse_runtime_robot_config-IsAccepted_example : IsAccepted kyon
parse_runtime_robot_config-IsAccepted_example =
    parse_runtime_robot_config-IsAccepted documents robot_file none parsed_kyon

-- A file with no DDS settings: the defaults.
abbrev default_dds : DdsConfig
default_dds = record {
  domain_id = 0;
  declare_to_ros = false;
  service = record {
    transport = zmq;
    command_uri = codes "tcp://127.0.0.1:5555";
    timeout_ms = 1000;
  };
  state = default_policy;
  command = default_policy;
}

parsed_defaults : parse_dds_config documents Document.empty ≡ ok default_dds
unfolding parse_dds_config parse_service parse_qos section check_keys check_entries value
    unsigned_value parse_unsigned text_eq all_digits decimal_from to_string
parsed_defaults = refl

parse_dds_config-accepted_example :
    (construct default_dds.service ≡ ok (record { config = default_dds.service; started = false }))
    × (is_valid default_dds.state ≡ true)
    × (is_valid default_dds.command ≡ true)
    × ((validate_dds default_dds ≡ ok tt) ↔ (default_dds.domain_id ≤ 232))
parse_dds_config-accepted_example =
    parse_dds_config-accepted documents Document.empty default_dds parsed_defaults

abbrev options : CommonOptions
options = record {
  config_path = codes "robot.yaml";
  runtime = record { publishers = some 500; subscribers = none; service = some 20 };
  help = false;
}

parse_common_options-arguments_example :
    parse_common_options documents (arguments options) ≡ ok options
unfolding is_flag
parse_common_options-arguments_example =
    parse_common_options-arguments documents options (omega arith) tt (omega arith) refl

topic_name_injective_example :
    Topic.rx (TopicsState.imu (codes "pelvis")) ≡ Topic.rx (TopicsState.imu (codes "pelvis"))
topic_name_injective_example =
    topic_name_injective (codes "advrf" ∷ []) (Topic.rx (TopicsState.imu (codes "pelvis")))
      (Topic.rx (TopicsState.imu (codes "pelvis"))) refl
