-- ===== src/DdsSubscribers.antt =====
-- src/dds_adapter_subscribers.cpp, adapters/dds_adapter_subscribers.hpp and `spin_once` of
-- subscriber/dds_subscriber.hpp, in plugins/advrf_cyclonedds_plugin and plugins/advrf_fastdds_plugin: motor
-- commands over DDS. A reader is the list of its samples, where one with no valid data is `none`; the ROS
-- graph is left out.
pub mod Forwarded
use ecat_middleware_advr.Prelude.{
  ℕ, ℤ, pos, Bool, true, false, List, [], ◌∷◌, ◌++◌, Option, none, some, if◌then◌else◌, to_uint32,
}
use ecat_middleware_advr.Channel.{ChannelTx, DeviceTypeTx}
use ecat_middleware_advr.Config.Topics.{Topic, TopicsCommand}
use ecat_middleware_advr.Pdo.{PdoType, PdoMessage}
use ecat_middleware_advr.Discover.{EcatMap, resolve_type}
use ecat_middleware_advr.Converter.Messages.{MotorTxPdoMsg}
use ecat_middleware_advr.Converter.MotorTx.{EcSlavePdo, cleared, motor_pdo_from_dds}
use ecat_middleware_advr.Subscribers.{push_into}

abbrev is_set : {A : Type 0} → Option A → Bool
is_set none = false
is_set (some a) = true

abbrev type_or : PdoType → Option PdoType → PdoType
type_or default none = default
type_or default (some t) = t

abbrev index_or : ℤ → Option ℤ → ℤ
index_or default none = default
index_or default (some z) = z

-- The PDO of a conversion, seen through the accessors: it has a header where its index was set.
instance abbrev pub ec_slave_message : {V : Type 0} → PdoMessage (EcSlavePdo V)
ec_slave_message = record {
  pdo_type = λ pdo. type_or PdoType.unspecified pdo.type;
  has_header = λ pdo. is_set pdo.index;
  has_index = λ pdo. is_set pdo.index;
  index = λ pdo. index_or (pos 0) pdo.index;
  has_str_id = λ pdo. false;
  str_id = λ pdo. [];
  has_stamp = λ pdo. false;
  sec = λ pdo. pos 0;
  nsec = λ pdo. pos 0;
}

-- `pdo.type() == Ec_slave_pdo::_UNSPECIFIED`, for what the conversion leaves.
abbrev is_unspecified : Option PdoType → Bool
is_unspecified none = true
is_unspecified (some PdoType.unspecified) = true
is_unspecified (some _) = false

module _ {V : Type 0} (ecat_map : EcatMap) where
  -- The PDO of one command, by the type that was discovered for its device.
  unfoldable pub motor_pdo : MotorTxPdoMsg V → EcSlavePdo V
  motor_pdo element =
      motor_pdo_from_dds element (resolve_type ecat_map (to_uint32 element.ecat_id)) cleared

  -- The converter that `init` passes on: what stays unspecified is dropped.
  unfoldable pub motor_pdos : List (MotorTxPdoMsg V) → List (EcSlavePdo V)
  unfolding motor_pdo
  motor_pdos [] = []
  motor_pdos (element ∷ elements) =
      let rest = motor_pdos elements in
      let pdo = motor_pdo element in if is_unspecified pdo.type then rest else pdo ∷ rest

module _ {Pdo Queues : Type 0} ⦃m : PdoMessage Pdo⦄
    (put : DeviceTypeTx → ℕ → Pdo → Queues → Queues × Bool) (is_ok : Bool)
    (channel : ChannelTx) where
  -- The callback that `register_subscriber` sets: the result of `push` is ignored.
  unfoldable pub push_all : List Pdo → Queues → Queues
  push_all [] queues = queues
  push_all (pdo ∷ pdos) queues = push_all pdos (push_into put is_ok channel pdo queues).0

  -- `spin_once` of a subscriber whose callback is set.
  unfoldable pub take_samples :
      {Msg : Type 0} → (Msg → List Pdo) → List (Option Msg) → Queues → Queues
  unfolding push_all
  take_samples converter [] queues = queues
  take_samples converter (none ∷ samples) queues = take_samples converter samples queues
  take_samples converter (some msg ∷ samples) queues =
      take_samples converter samples (push_all (converter msg) queues)

-- A registered subscriber.
pub record DdsSubscriber : Type 0 where
  pub topic : Topic
  pub channel : ChannelTx

-- `register_subscriber`; `created` is the result of `init_dds`.
unfoldable pub register_subscriber :
    DdsSubscriber → Bool → List DdsSubscriber → List DdsSubscriber × Bool
register_subscriber subscriber created subscribers =
    if created then (subscribers ++ subscriber ∷ [], true) else (subscribers, false)

abbrev pub motor_subscriber : DdsSubscriber
motor_subscriber = record { topic = Topic.tx TopicsCommand.motor_cmd; channel = ChannelTx.motor }

-- `init` of Cyclone DDS returns whether the subscriber was registered.
unfoldable pub init_cyclone : Bool → List DdsSubscriber → List DdsSubscriber × Bool
unfolding register_subscriber
init_cyclone created subscribers = register_subscriber motor_subscriber created subscribers

-- `init` of Fast DDS returns true.
unfoldable pub init_fast : Bool → List DdsSubscriber → List DdsSubscriber × Bool
unfolding register_subscriber
init_fast created subscribers = ((register_subscriber motor_subscriber created subscribers).0, true)

-- `spin_once` of the adapter, with the samples of each subscriber's reader; all convert motor commands.
module _ {V Queues : Type 0} (ecat_map : EcatMap)
    (put : DeviceTypeTx → ℕ → EcSlavePdo V → Queues → Queues × Bool) (is_ok : Bool) where
  unfoldable pub spin_once :
      (DdsSubscriber → List (Option (List (MotorTxPdoMsg V))))
      → List DdsSubscriber
      → Queues
      → Queues
  unfolding take_samples motor_pdos
  spin_once reader [] queues = queues
  spin_once reader (subscriber ∷ subscribers) queues =
      spin_once reader subscribers
        (take_samples put is_ok subscriber.channel (motor_pdos ecat_map) (reader subscriber) queues)
