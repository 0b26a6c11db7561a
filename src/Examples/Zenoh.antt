-- ===== src/Examples/Zenoh.antt =====
-- The theorems on the subscribers and publishers of Zenoh, at concrete inputs.
use mathlib.Core.List.{Perm}
use ecat_middleware_advr.Prelude.{
  ℕ, ◌+◌, ◌-◌, ◌%◌, ◌≡◌, refl, Bool, true, false, List, [], ◌∷◌, ◌++◌, Option, none, some, Text,
  codes, arith, length, take, if◌then◌else◌, u64_mod, ok,
}
use ecat_middleware_advr.Channel.{
  channel_index, ChannelRx, ChannelTx, DeviceTypeRx, DeviceTypeTx, device_for_tx,
}
use ecat_middleware_advr.Pdo.{PdoType}
use ecat_middleware_advr.Pdo.Ids.{find_name}
use ecat_middleware_advr.Config.Topics.{Topic, TopicsCommand}
use ecat_middleware_advr.Discover.{EcatMap}
use ecat_middleware_advr.DdsAdapter.{
  Registration, init_publishers, single_publishers, single_publisher, ids_on, single_channel,
}
use ecat_middleware_advr.Publishers.{
  ChannelCaches, Subscription, PublisherCall, new_subscription, fill_cache, begin_cycle, end_cycle,
}
use ecat_middleware_advr.Publishers.Cache.{empty_cache}
use ecat_middleware_advr.Publishers.Dispatch.Offers.{delivered, consumes}
use ecat_middleware_advr.Publishers.Dispatch.Cycle.{reported, dispatch_subscription-calls}
use ecat_middleware_advr.Subscribers.Bounded.{Handed, bounded}
use ecat_middleware_advr.ZenohCommands.{Ros2CommandType, deserialize_cycle}
use ecat_middleware_advr.ZenohCommands.Messages.{TxPdo}
use ecat_middleware_advr.ZenohState.{Ros2MessageType}
use ecat_middleware_advr.ZenohSubscriber.{ZenohSubscriber, on_samples, run_callback, spin_once}
use ecat_middleware_advr.ZenohSubscriber.Newest.{decoded, newest, spin_once-newest}
use ecat_middleware_advr.ZenohSubscribers.{CommandTopic, WireFormat, on_commands, tx_pdo_message}
use ecat_middleware_advr.ZenohSubscribers.Delivered.{up_to_negative, on_commands_lem}
use ecat_middleware_advr.ZenohPublishers.{ZenohBridge, Encoders, on_calls, init}
use ecat_middleware_advr.ZenohPublishers.Cycles.{
  pdos_of, holding, to_write, written_by, on_calls-to_write,
}
use ecat_middleware_advr.ZenohPublishers.Joints.{InStep, accepted}
use ecat_middleware_advr.ZenohPublishers.Topics.{init-InStep}
use ecat_middleware_advr.Examples.Samples.{Sample, sample, sample_message, number, sample_payloads}
use ecat_middleware_advr.Examples.Forwarding.{motors_only, commands}

-- A subscriber for two messages that gets four samples, of which one cannot be deserialised.
abbrev pair : ZenohSubscriber ℕ
pair = record { history_depth = 2; dropped_samples = 0; pending = [] }

abbrev collect : ℕ → List ℕ → List ℕ × Bool
collect message seen = (seen ++ message ∷ [], false)

abbrev arrivals : List (Option ℕ)
arrivals = some 1 ∷ none ∷ some 2 ∷ some 3 ∷ []

spin_once-newest_example : spin_once (some collect) (on_samples pair arrivals) [] ≡ (
  record {
    history_depth = 2;
    dropped_samples = (0 + (length (decoded arrivals) - 2)) % u64_mod;
    pending = [];
  },
  run_callback (some collect) (newest 2 (decoded arrivals)) [],
)
spin_once-newest_example =
    spin_once-newest collect [] pair arrivals (omega arith) (omega arith) refl

abbrev joint_topic : CommandTopic
joint_topic = record {
  key = Topic.tx TopicsCommand.joint_cmd;
  expected_type = PdoType.tx_cia402;
  channel = ChannelTx.motor;
  cdr_type = Ros2CommandType.joint;
}

on_commands_lem_example :
    (on_commands
      (bounded 1)
      true
      joint_topic
      (deserialize_cycle {V = ℕ} Ros2CommandType.joint commands).0
      []).0
    ≡ []
      ++ take (1 - length {A = Handed (TxPdo ℕ)} []) (
          up_to_negative DeviceTypeTx.motor
            (deserialize_cycle {V = ℕ} Ros2CommandType.joint commands).0)
unfolding device_for_tx
on_commands_lem_example = on_commands_lem 1 DeviceTypeTx.motor joint_topic commands [] (refl, refl)

-- Commands for two drives.
abbrev for_two : List (Option Sample)
for_two = some (sample PdoType.tx_cia402 3 1) ∷ some (sample PdoType.tx_cia402 4 1) ∷ []

-- A payload is the readings that are encoded in it.
abbrev encoders : Encoders Sample ℕ (List ℕ)
encoders = record {
  byte_size = λ s. 20;
  to_array = λ s. some (s.reading ∷ []);
  serialize_idl = λ m. none;
}

abbrev received_motor : DeviceTypeRx → List Sample
received_motor DeviceTypeRx.motor = sample PdoType.rx_cia402 3 100 ∷ []
received_motor _ = []

abbrev caches : ChannelCaches Sample
caches = fill_cache received_motor (λ i. empty_cache (sample PdoType.dummy 0 0))

abbrev motor_of_3 : Subscription Sample
motor_of_3 = new_subscription (ChannelRx.motor ∷ []) (3 ∷ [])

abbrev bridge : ZenohBridge Sample
bridge = record {
  ready = true;
  wire_format = WireFormat.protobuf;
  ros2_type = Ros2MessageType.motor;
  messages = [];
}

abbrev cycle_calls : List (PublisherCall Sample)
cycle_calls =
    begin_cycle
    ∷ (consumes (delivered caches motor_of_3) ++ end_cycle (reported caches motor_of_3) ∷ [])

on_calls-to_write_example :
    on_calls {V = ℕ} encoders cycle_calls bridge
    ≡ written_by {V = ℕ} encoders (holding bridge (pdos_of (delivered caches motor_of_3))) (
        if reported caches motor_of_3
        then to_write {V = ℕ} encoders WireFormat.protobuf Ros2MessageType.motor
            (pdos_of (delivered caches motor_of_3))
        else ok [])
on_calls-to_write_example =
    on_calls-to_write encoders caches motor_of_3 cycle_calls bridge refl
      (dispatch_subscription-calls caches motor_of_3)

abbrev named : List (ℕ × Text)
named = (3, codes "knee") ∷ (8, codes "imu") ∷ []

-- A drive and an IMU.
abbrev two_found : EcatMap
two_found =
    (
      3,
      record {
        ecat_id = 3;
        name = codes "knee";
        type = PdoType.rx_cia402;
        channel = ChannelRx.motor;
        device = DeviceTypeRx.motor;
      },
    )
    ∷ (
      8,
      record {
        ecat_id = 8;
        name = codes "imu";
        type = PdoType.rx_imu_vn;
        channel = ChannelRx.imu;
        device = DeviceTypeRx.imu;
      },
    )
    ∷ []

init-InStep_example :
    ((init accepted named two_found).1 ≡ true)
    × ((ds : List Registration) × Perm ds (init_publishers named two_found).0
        × InStep (init accepted named two_found).0 ds)
unfolding init_publishers single_publishers single_publisher ids_on single_channel find_name
    channel_index
init-InStep_example = init-InStep named two_found (refl, (refl, tt)) refl
