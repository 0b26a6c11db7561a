-- ===== src/ZenohSubscribers.antt =====
-- src/zenoh_adapter_subscribers.cpp of plugins/advrf_zenoh_plugin: the command topics, and how a command
-- that arrives on one goes to the transmit queue of its channel. The transmit queues are a state with
-- the step that `ShmProtoHelper::push` makes on it. It is built with ZENOH_ROS2_SUPPORT.
pub mod Delivered
use ecat_middleware_advr.Prelude.{
  ℕ, pos, Bool, true, false, ◌&&◌, List, [], ◌∷◌, Option, none, some, if◌then◌else◌, ite,
}
use ecat_middleware_advr.Channel.{ChannelTx, DeviceTypeTx}
use ecat_middleware_advr.Pdo.{PdoType, PdoMessage}
use ecat_middleware_advr.Pdo.Check.{PdoType-discrete}
use ecat_middleware_advr.Config.Topics.{Topic, TopicsCommand}
use ecat_middleware_advr.Subscribers.{push_into}
use ecat_middleware_advr.ZenohCommands.{Ros2CommandType}
use ecat_middleware_advr.ZenohCommands.Messages.{TxPdo}

pub data WireFormat : Type 0 where
  protobuf ros2_cdr : WireFormat

-- `Topic`; its key is what config/config_topics.hpp names.
pub record CommandTopic : Type 0 where
  pub key : Topic
  pub expected_type : PdoType
  pub channel : ChannelTx
  pub cdr_type : Ros2CommandType

-- `topics_`.
unfoldable pub topics : List CommandTopic
topics =
    record {
      key = Topic.tx TopicsCommand.joint_cmd;
      expected_type = PdoType.tx_cia402;
      channel = ChannelTx.motor;
      cdr_type = Ros2CommandType.joint;
    }
    ∷ record {
      key = Topic.tx TopicsCommand.motor_cmd;
      expected_type = PdoType.tx_motor;
      channel = ChannelTx.motor;
      cdr_type = Ros2CommandType.motor;
    }
    ∷ record {
      key = Topic.tx TopicsCommand.valve_cmd;
      expected_type = PdoType.tx_hyq_knee;
      channel = ChannelTx.valve;
      cdr_type = Ros2CommandType.valve;
    }
    ∷ record {
      key = Topic.tx TopicsCommand.gripper_cmd;
      expected_type = PdoType.tx_gripper;
      channel = ChannelTx.gripper;
      cdr_type = Ros2CommandType.gripper;
    }
    ∷ record {
      key = Topic.tx TopicsCommand.pump_cmd;
      expected_type = PdoType.tx_hyq_hpu;
      channel = ChannelTx.pump;
      cdr_type = Ros2CommandType.pump;
    }
    ∷ []

-- The loop of `start`: `declares` is false where Zenoh throws. The topics that are subscribed to and the
-- result.
unfoldable pub register_all : (CommandTopic → Bool) → List CommandTopic → List CommandTopic × Bool
register_all declares [] = ([], true)
register_all declares (topic ∷ rest) =
    let (registered, complete) = register_all declares rest in
    if declares topic && complete then (topic ∷ registered, true) else ([], false)

-- `connected` is the result of `AdapterSubscribers::start`, without which nothing is changed.
unfoldable pub start : Bool → (CommandTopic → Bool) → List CommandTopic → List CommandTopic × Bool
unfolding topics
start connected declares subscribed =
    if connected then register_all declares topics else (subscribed, false)

module _ {Pdo Queues : Type 0} ⦃m : PdoMessage Pdo⦄
    (put : DeviceTypeTx → ℕ → Pdo → Queues → Queues × Bool) (is_ok : Bool) where
  unfoldable pub enqueue : CommandTopic → Pdo → Queues → Queues × Bool
  enqueue topic pdo queues =
      ite (PdoType-discrete (m.pdo_type pdo) topic.expected_type)
        (push_into put is_ok topic.channel pdo queues) (queues, false)

  -- The callback of a topic in Protobuf; it never throws.
  unfoldable pub on_pdo : CommandTopic → Pdo → Queues → Queues × Bool
  unfolding enqueue
  on_pdo topic pdo queues = ((enqueue topic pdo queues).0, false)

  -- The loop of the callback in CDR: it stops behind the first command that is not accepted.
  unfoldable pub enqueue_batch : CommandTopic → List Pdo → Queues → Queues
  unfolding enqueue
  enqueue_batch topic [] queues = queues
  enqueue_batch topic (pdo ∷ commands) queues =
      let next = enqueue topic pdo queues in
      let rest = enqueue_batch topic commands next.0 in if next.1 then rest else next.0

  unfoldable pub on_commands : CommandTopic → List Pdo → Queues → Queues × Bool
  unfolding enqueue_batch
  on_commands topic commands queues = (enqueue_batch topic commands queues, false)

-- A PDO as the deserialisers make it, seen through the accessors: its header has an index and no more.
instance abbrev pub tx_pdo_message : {V : Type 0} → PdoMessage (TxPdo V)
tx_pdo_message = record {
  pdo_type = λ pdo. pdo.type;
  has_header = λ pdo. true;
  has_index = λ pdo. true;
  index = λ pdo. pdo.index;
  has_str_id = λ pdo. false;
  str_id = λ pdo. [];
  has_stamp = λ pdo. false;
  sec = λ pdo. pos 0;
  nsec = λ pdo. pos 0;
}
