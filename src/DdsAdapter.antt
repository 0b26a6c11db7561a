-- ===== src/DdsAdapter.antt =====
-- src/dds_adapter_publishers.cpp of plugins/advrf_cyclonedds_plugin (plugins/advrf_fastdds_plugin has the
-- same): which state publishers `DDSAdapterPublishers::init` creates for the discovered devices. The DDS
-- participant and the ROS graph are left out; a topic is what config/config_topics.hpp names.
pub mod Created
use ecat_middleware_advr.Prelude.{
  ℕ, Bool, true, false, not, List, [], ◌∷◌, ◌++◌, map, Option, none, some, Text, if◌then◌else◌,
  ◌==◌, filter_by, is_empty,
}
use ecat_middleware_advr.Channel.{ChannelRx, channel_index}
use ecat_middleware_advr.Discover.{EcatMetadata, EcatMap}
use ecat_middleware_advr.Pdo.Ids.{find_name}
use ecat_middleware_advr.Config.Topics.{Topic, TopicsState}

pub data PublisherKind : Type 0 where
  joint_state motors gripper valve imu power_board pump force_torque : PublisherKind

-- What `create_publisher` registers.
pub record Registration : Type 0 where
  pub kind : PublisherKind
  pub channels : List ChannelRx
  pub ids : List ℕ
  pub topic : Topic

-- The lambda `filter`.
unfoldable pub ids_on : EcatMap → ChannelRx → List ℕ
ids_on [] channel = []
ids_on ((id, device) ∷ rest) channel =
    let others = ids_on rest channel in
    if channel_index device.channel == channel_index channel
    then device.ecat_id ∷ others
    else others

-- A publisher for the devices of channels, if there are any.
unfoldable pub when_any : Registration → List Registration
when_any r = if is_empty r.ids then [] else r ∷ []

unfoldable pub joint_ids : EcatMap → List ℕ
joint_ids ecat_map =
    ids_on ecat_map ChannelRx.motor
    ++ (ids_on ecat_map ChannelRx.gripper ++ ids_on ecat_map ChannelRx.valve)

-- The publishers for joints, motors, grippers and valves.
unfoldable pub joint_publishers : EcatMap → List Registration
joint_publishers ecat_map =
    when_any (record {
      kind = PublisherKind.joint_state;
      channels = ChannelRx.motor ∷ ChannelRx.gripper ∷ ChannelRx.valve ∷ [];
      ids = joint_ids ecat_map;
      topic = Topic.rx TopicsState.joint_state;
    })
    ++ (when_any (record {
      kind = PublisherKind.motors;
      channels = ChannelRx.motor ∷ [];
      ids = ids_on ecat_map ChannelRx.motor;
      topic = Topic.rx TopicsState.motor;
    })
        ++ (when_any (record {
          kind = PublisherKind.gripper;
          channels = ChannelRx.gripper ∷ [];
          ids = ids_on ecat_map ChannelRx.gripper;
          topic = Topic.rx TopicsState.gripper;
        })
            ++ when_any (record {
              kind = PublisherKind.valve;
              channels = ChannelRx.valve ∷ [];
              ids = ids_on ecat_map ChannelRx.valve;
              topic = Topic.rx TopicsState.valve;
            })))

-- The kinds of which one device is supported.
pub data SingleKind : Type 0 where
  imu power_board pump force_torque : SingleKind

unfoldable pub single_channel : SingleKind → ChannelRx
single_channel SingleKind.imu = ChannelRx.imu
single_channel SingleKind.power_board = ChannelRx.power_board
single_channel SingleKind.pump = ChannelRx.pump
single_channel SingleKind.force_torque = ChannelRx.force_torque

unfoldable pub single_registration : SingleKind → List ℕ → Text → Registration
single_registration SingleKind.imu ids name = record {
  kind = PublisherKind.imu;
  channels = ChannelRx.imu ∷ [];
  ids = ids;
  topic = Topic.rx (TopicsState.imu name);
}
single_registration SingleKind.power_board ids name = record {
  kind = PublisherKind.power_board;
  channels = ChannelRx.power_board ∷ [];
  ids = ids;
  topic = Topic.rx (TopicsState.power_board name);
}
single_registration SingleKind.pump ids name = record {
  kind = PublisherKind.pump;
  channels = ChannelRx.pump ∷ [];
  ids = ids;
  topic = Topic.rx (TopicsState.pump name);
}
single_registration SingleKind.force_torque ids name = record {
  kind = PublisherKind.force_torque;
  channels = ChannelRx.force_torque ∷ [];
  ids = ids;
  topic = Topic.rx (TopicsState.force_torque name);
}

-- The block for one of them: what it creates, and false where `init` returns false.
unfoldable pub single_publisher : List (ℕ × Text) → SingleKind → List ℕ → List Registration × Bool
single_publisher map_ecat_id kind [] = ([], true)
single_publisher map_ecat_id kind (id ∷ []) = elim (find_name map_ecat_id id) [
  | some name ↦ (single_registration kind (id ∷ []) name ∷ [], true)
  | none ↦ ([], false)
]
single_publisher map_ecat_id kind (id ∷ other ∷ rest) = ([], false)

-- The blocks one after the other, up to the first that fails.
unfoldable pub single_publishers :
    List (ℕ × Text) → EcatMap → List SingleKind → List Registration × Bool
single_publishers map_ecat_id ecat_map [] = ([], true)
single_publishers map_ecat_id ecat_map (kind ∷ kinds) =
    let block = single_publisher map_ecat_id kind (ids_on ecat_map (single_channel kind)) in
    let rest = single_publishers map_ecat_id ecat_map kinds in
    if block.1 then (block.0 ++ rest.0, rest.1) else block

abbrev pub single_kinds : List SingleKind
single_kinds =
    SingleKind.imu ∷ SingleKind.power_board ∷ SingleKind.pump ∷ SingleKind.force_torque ∷ []

-- The publishers that `init` creates, and what it returns.
unfoldable pub init_publishers : List (ℕ × Text) → EcatMap → List Registration × Bool
init_publishers map_ecat_id ecat_map =
    let single = single_publishers map_ecat_id ecat_map single_kinds in
    (joint_publishers ecat_map ++ single.0, single.1)
