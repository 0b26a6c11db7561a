-- ===== src/Config/Topics.antt =====
-- Topic names, config/config_topics.hpp: the builder `TopicNamespace` and the groups of topics it names.
pub mod Shape
use ecat_middleware_advr.Prelude.{List, [], ◌∷◌, ◌++◌, Text, codes, is_empty, if◌then◌else◌}

-- The loop of `build` over the components of the namespace: it appends to `topic`.
unfoldable pub append_namespace : Text → List Text → Text
append_namespace topic [] = topic
append_namespace topic (component ∷ rest) =
    let skipped = append_namespace topic rest in
    let appended = append_namespace ((topic ++ codes "/") ++ component) rest in
    if is_empty component then skipped else appended

unfoldable pub build : List Text → Text → Text → Text
build namespace prefix suffix = (append_namespace prefix namespace ++ codes "/") ++ suffix

-- The groups of topics. A topic of `TopicsState` that names a device carries the device's name.
pub data TopicsState : Type 0 where
  joint_state motor gripper valve : TopicsState
  imu force_torque power_board pump : Text → TopicsState

pub data TopicsCommand : Type 0 where
  joint_cmd motor_cmd valve_cmd gripper_cmd pump_cmd power_board_cmd force_torque_cmd :
      TopicsCommand

pub data TopicsService : Type 0 where
  request reply : TopicsService

pub data TopicsParameters : Type 0 where
  get_request get_reply get_cmd_request get_cmd_reply set_request set_reply : TopicsParameters
  list_request list_reply list_get_request list_get_reply : TopicsParameters

-- `ConfigTopics`: all groups share one namespace.
pub data Topic : Type 0 where
  rx : TopicsState → Topic
  tx : TopicsCommand → Topic
  parameters : TopicsParameters → Topic
  service : TopicsService → Topic

unfoldable pub state_suffix : TopicsState → Text
state_suffix TopicsState.joint_state = codes "rx/joint_states"
state_suffix TopicsState.motor = codes "rx/motors"
state_suffix TopicsState.gripper = codes "rx/grippers"
state_suffix TopicsState.valve = codes "rx/valves"
state_suffix (TopicsState.imu device) = codes "rx/imu/" ++ device
state_suffix (TopicsState.force_torque device) = codes "rx/force_torque/" ++ device
state_suffix (TopicsState.power_board device) = codes "rx/power_board/" ++ device
state_suffix (TopicsState.pump device) = codes "rx/pump/" ++ device

unfoldable pub command_suffix : TopicsCommand → Text
command_suffix TopicsCommand.joint_cmd = codes "tx/joints"
command_suffix TopicsCommand.motor_cmd = codes "tx/motors"
command_suffix TopicsCommand.valve_cmd = codes "tx/valves"
command_suffix TopicsCommand.gripper_cmd = codes "tx/grippers"
command_suffix TopicsCommand.pump_cmd = codes "tx/pumps"
command_suffix TopicsCommand.power_board_cmd = codes "tx/power_board"
command_suffix TopicsCommand.force_torque_cmd = codes "tx/force_torque"

unfoldable pub parameter_suffix : TopicsParameters → Text
parameter_suffix TopicsParameters.get_request = codes "parameters/getRequest"
parameter_suffix TopicsParameters.get_reply = codes "parameters/getReply"
parameter_suffix TopicsParameters.get_cmd_request = codes "parameters/getCmdRequest"
parameter_suffix TopicsParameters.get_cmd_reply = codes "parameters/getCmdReply"
parameter_suffix TopicsParameters.set_request = codes "parameters/setRequest"
parameter_suffix TopicsParameters.set_reply = codes "parameters/setReply"
parameter_suffix TopicsParameters.list_request = codes "parameters/listRequest"
parameter_suffix TopicsParameters.list_reply = codes "parameters/listReply"
parameter_suffix TopicsParameters.list_get_request = codes "parameters/listGetRequest"
parameter_suffix TopicsParameters.list_get_reply = codes "parameters/listGetReply"

unfoldable pub service_suffix : TopicsService → Text
service_suffix TopicsService.request = codes "replCmdRequest"
service_suffix TopicsService.reply = codes "replCmdReply"

-- `rt`, `rq` and `rr` choose the prefix: a request or a reply of ROS services, or a ROS topic.
unfoldable pub parameter_prefix : TopicsParameters → Text
parameter_prefix TopicsParameters.get_request = codes "rq"
parameter_prefix TopicsParameters.get_reply = codes "rr"
parameter_prefix TopicsParameters.get_cmd_request = codes "rq"
parameter_prefix TopicsParameters.get_cmd_reply = codes "rr"
parameter_prefix TopicsParameters.set_request = codes "rq"
parameter_prefix TopicsParameters.set_reply = codes "rr"
parameter_prefix TopicsParameters.list_request = codes "rq"
parameter_prefix TopicsParameters.list_reply = codes "rr"
parameter_prefix TopicsParameters.list_get_request = codes "rq"
parameter_prefix TopicsParameters.list_get_reply = codes "rr"

unfoldable pub prefix_of : Topic → Text
unfolding parameter_prefix
prefix_of (Topic.rx t) = codes "rt"
prefix_of (Topic.tx t) = codes "rt"
prefix_of (Topic.parameters t) = parameter_prefix t
prefix_of (Topic.service TopicsService.request) = codes "rq"
prefix_of (Topic.service TopicsService.reply) = codes "rr"

unfoldable pub suffix_of : Topic → Text
unfolding state_suffix command_suffix parameter_suffix service_suffix
suffix_of (Topic.rx t) = state_suffix t
suffix_of (Topic.tx t) = command_suffix t
suffix_of (Topic.parameters t) = parameter_suffix t
suffix_of (Topic.service t) = service_suffix t

unfoldable pub topic_name : List Text → Topic → Text
topic_name namespace topic = build namespace (prefix_of topic) (suffix_of topic)
