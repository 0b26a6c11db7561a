-- ===== src/ZenohPublishers.antt =====
-- adapters/zenoh_adapter_bridge.hpp, serialization/serializer.hpp, serialization/protobuf.hpp and
-- src/zenoh_adapter_publishers.cpp of plugins/advrf_zenoh_plugin: what the publisher of a topic writes in
-- a cycle, and which topics are published for the discovered devices. The encodings of one message, in
-- Protobuf and in CDR, are parameters, and a declaration with Zenoh succeeds or throws. It is built with
-- ZENOH_ROS2_SUPPORT.
pub mod Cycles
pub mod Joints
pub mod Topics
use ecat_middleware_advr.Prelude.{
  ℕ, Bool, true, false, ◌&&◌, ◌||◌, not, List, [], ◌∷◌, ◌++◌, map, Option, none, some, Text,
  if◌then◌else◌, ltb, ◌==◌, length, is_empty, Result, ok, err, ◌>>=◌,
}
use ecat_middleware_advr.Channel.{ChannelRx, channel_index}
use ecat_middleware_advr.Pdo.{PdoMessage}
use ecat_middleware_advr.Pdo.Ids.{find_name}
use ecat_middleware_advr.Config.Topics.{Topic, TopicsState}
use ecat_middleware_advr.Converter.{Number}
use ecat_middleware_advr.Converter.Received.{PdoPayloads}
use ecat_middleware_advr.Converter.State.{NullString}
use ecat_middleware_advr.Discover.{EcatMetadata, EcatMap}
use ecat_middleware_advr.Publishers.{PublisherCall}
use ecat_middleware_advr.ZenohState.{Serialized, Ros2MessageType, StateMsg, serialize_cycle}
use ecat_middleware_advr.ZenohSubscribers.{WireFormat}

-- `ZenohAdapterBridgePublisher`, without its topic: `ready` is whether `init` has set the publisher and
-- the serialiser.
pub record ZenohBridge (Pdo : Type 0) : Type 0 where
  pub ready : Bool
  pub wire_format : WireFormat
  pub ros2_type : Ros2MessageType
  pub messages : List Pdo

module _ {Pdo : Type 0} where
  abbrev pub new_bridge : ZenohBridge Pdo
  new_bridge = record {
    ready = false;
    wire_format = WireFormat.protobuf;
    ros2_type = Ros2MessageType.joint_state;
    messages = [];
  }

  -- `declared` is false where the declaration of the publisher throws.
  unfoldable pub init_bridge :
      WireFormat → Ros2MessageType → Bool → ZenohBridge Pdo → ZenohBridge Pdo × Bool
  init_bridge wire_format ros2_type declared bridge =
      if declared
      then (record bridge { ready = true; wire_format = wire_format; ros2_type = ros2_type }, true)
      else (record bridge { wire_format = wire_format }, false)

  unfoldable pub begin_cycle : ZenohBridge Pdo → ZenohBridge Pdo
  begin_cycle bridge = record bridge { messages = [] }

  unfoldable pub consume : Pdo → ZenohBridge Pdo → ZenohBridge Pdo
  consume pdo bridge = record bridge { messages = bridge.messages ++ pdo ∷ [] }

-- The encodings: `ByteSizeLong` and `SerializeToArray` of a PDO, and `ros2cdr::serialize_idl` of a message.
pub record Encoders (Pdo V Payload : Type 0) : Type 0 where
  pub byte_size : Pdo → ℕ
  pub to_array : Pdo → Option Payload
  pub serialize_idl : StateMsg V → Option Payload

abbrev is_cdr : WireFormat → Bool
is_cdr WireFormat.protobuf = false
is_cdr WireFormat.ros2_cdr = true

module _ {Pdo V Payload : Type 0} ⦃p : PdoMessage Pdo⦄ ⦃q : PdoPayloads Pdo V⦄ ⦃n : Number V⦄
    (enc : Encoders Pdo V Payload) where
  -- `Serializer::serialize`, and `ProtobufSerializer::serialize` with its limit, that of `int`.
  unfoldable pub serialize : WireFormat → Pdo → Option Payload
  serialize WireFormat.ros2_cdr pdo = none
  serialize WireFormat.protobuf pdo =
      if ltb 2147483647 (enc.byte_size pdo) then none else enc.to_array pdo

  -- The payload of a message that has been converted.
  abbrev pub encoded : Option (StateMsg V) → Option Payload
  encoded none = none
  encoded (some msg) = enc.serialize_idl msg

  -- `Serializer::serialize_cycle`.
  unfoldable pub serialize_all :
      WireFormat → Ros2MessageType → List Pdo → Result NullString (Option Payload)
  serialize_all WireFormat.protobuf ros2_type messages = ok none
  serialize_all WireFormat.ros2_cdr ros2_type messages =
      serialize_cycle {V = V} ros2_type messages >>= λ msg. ok (encoded msg)

  abbrev pub payloads : Option Payload → List Payload
  payloads none = []
  payloads (some payload) = payload ∷ []

  -- The loop over the messages in Protobuf: one that cannot be serialised is logged and skipped.
  unfoldable pub publish_each : WireFormat → List Pdo → List Payload
  unfolding serialize
  publish_each wire_format [] = []
  publish_each wire_format (pdo ∷ messages) =
      payloads (serialize wire_format pdo) ++ publish_each wire_format messages

  -- The payloads that are passed to Zenoh, or an exception of the conversions.
  unfoldable pub end_cycle : Bool → ZenohBridge Pdo → Result NullString (List Payload)
  end_cycle valid bridge =
      if not valid || not bridge.ready || is_empty bridge.messages
      then ok []
      else if is_cdr bridge.wire_format
      then (serialize_all bridge.wire_format bridge.ros2_type bridge.messages >>= λ payload.
          ok (payloads payload))
      else ok (publish_each bridge.wire_format bridge.messages)

  -- A call of the publishers' dispatch.
  unfoldable pub on_call :
      PublisherCall Pdo → ZenohBridge Pdo → Result NullString (ZenohBridge Pdo × List Payload)
  on_call PublisherCall.begin_cycle bridge = ok (begin_cycle bridge, [])
  on_call (PublisherCall.consume pdo) bridge = ok (consume pdo bridge, [])
  on_call (PublisherCall.end_cycle valid) bridge =
      end_cycle valid bridge >>= λ written. ok (bridge, written)

  -- The calls of a cycle, in order.
  unfoldable pub on_calls :
      List (PublisherCall Pdo)
      → ZenohBridge Pdo
      → Result NullString (ZenohBridge Pdo × List Payload)
  on_calls [] bridge = ok (bridge, [])
  on_calls (call ∷ calls) bridge = on_call call bridge >>= λ first.
      on_calls calls first.0 >>= λ rest. ok (rest.0, first.1 ++ rest.1)

-- What `register_topic` registers: a publisher for channels and IDs, its key, and its ROS 2 message.
pub record TopicRegistration : Type 0 where
  pub channels : List ChannelRx
  pub ids : List ℕ
  pub key : Topic
  pub ros2_type : Ros2MessageType

-- The registrations of a step of `init`, and whether it succeeded.
abbrev pub Registered : Type 0
Registered = List TopicRegistration × Bool

-- The lambda `filter_ids`.
unfoldable pub filter_ids : EcatMap → ChannelRx → List ℕ
filter_ids [] channel = []
filter_ids ((id, device) ∷ rest) channel =
    let others = filter_ids rest channel in
    if channel_index device.channel == channel_index channel then id ∷ others else others

module _ (declares : Topic → Bool) where
  -- The lambda `register_topic`. The publisher is registered also where its `init` fails.
  unfoldable pub register_topic : TopicRegistration → Registered
  register_topic r = if is_empty r.ids then ([], true) else (r ∷ [], declares r.key)

  -- The steps of `init` one after the other: none is left out.
  abbrev pub both : Registered → Registered → Registered
  both first second = (first.0 ++ second.0, first.1 && second.1)

  -- The body of the loop of `register_devices`, with the name of the device.
  unfoldable pub register_device :
      ChannelRx → (Text → TopicsState) → Ros2MessageType → ℕ → Option Text → Registered
  unfolding register_topic
  register_device channel make_key ros2_type id none = ([], false)
  register_device channel make_key ros2_type id (some name) = register_topic (record {
    channels = channel ∷ [];
    ids = id ∷ [];
    key = Topic.rx (make_key name);
    ros2_type = ros2_type;
  })

  unfoldable pub register_devices :
      List (ℕ × Text) → ChannelRx → (Text → TopicsState) → Ros2MessageType → List ℕ → Registered
  unfolding register_device
  register_devices map_ecat_id channel make_key ros2_type [] = ([], true)
  register_devices map_ecat_id channel make_key ros2_type (id ∷ ids) =
      both (register_device channel make_key ros2_type id (find_name map_ecat_id id))
        (register_devices map_ecat_id channel make_key ros2_type ids)

  -- The topics of all joints, of the motors, of the valves and of the grippers.
  unfoldable pub register_joints : EcatMap → Registered
  unfolding register_topic
  register_joints ecat_map =
      let motor_ids = filter_ids ecat_map ChannelRx.motor in
      let valve_ids = filter_ids ecat_map ChannelRx.valve in
      let gripper_ids = filter_ids ecat_map ChannelRx.gripper in
      both
        (register_topic (record {
          channels = ChannelRx.motor ∷ ChannelRx.gripper ∷ ChannelRx.valve ∷ [];
          ids = (motor_ids ++ valve_ids) ++ gripper_ids;
          key = Topic.rx TopicsState.joint_state;
          ros2_type = Ros2MessageType.joint_state;
        }))
        (both
          (register_topic (record {
            channels = ChannelRx.motor ∷ [];
            ids = motor_ids;
            key = Topic.rx TopicsState.motor;
            ros2_type = Ros2MessageType.motor;
          }))
          (both
            (register_topic (record {
              channels = ChannelRx.valve ∷ [];
              ids = valve_ids;
              key = Topic.rx TopicsState.valve;
              ros2_type = Ros2MessageType.valve;
            }))
            (register_topic (record {
              channels = ChannelRx.gripper ∷ [];
              ids = gripper_ids;
              key = Topic.rx TopicsState.gripper;
              ros2_type = Ros2MessageType.gripper;
            }))))

  -- `ZenohAdapterPublishers::init`.
  unfoldable pub init : List (ℕ × Text) → EcatMap → Registered
  unfolding register_joints register_devices
  init map_ecat_id ecat_map =
      let devices =
        λ (channel : ChannelRx) (make_key : Text → TopicsState) (ros2_type : Ros2MessageType).
          register_devices map_ecat_id channel make_key ros2_type (filter_ids ecat_map channel) in
      both (register_joints ecat_map) (
        both (devices ChannelRx.imu TopicsState.imu Ros2MessageType.imu) (
          both (devices ChannelRx.power_board TopicsState.power_board Ros2MessageType.power_board) (
            both (devices ChannelRx.pump TopicsState.pump Ros2MessageType.pump) (
              devices ChannelRx.force_torque TopicsState.force_torque
                Ros2MessageType.force_torque))))
