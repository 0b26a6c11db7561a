-- ===== src/Channel.antt =====
-- utils/channel.hpp of core/advrf_middleware_core: the receive and transmit channels and the
-- shared-memory devices that they stand for. `shm_types.hpp` is not in the repository: of its device
-- enumerations the program uses the enumerators named here.
pub mod Devices
use ecat_middleware_advr.Prelude.{ℕ, List, [], ◌∷◌, Option, none, some}

pub data ChannelRx : Type 0 where
  imu motor gripper pump power_board force_torque valve count : ChannelRx

pub data DeviceTypeRx : Type 0 where
  imu motor gripper pump power_board force_torque valve : DeviceTypeRx

-- `device_for` of a receive channel: the lookup in `k_map_channelrx_to_devicerx`.
unfoldable pub device_for : ChannelRx → Option DeviceTypeRx
device_for ChannelRx.imu = some DeviceTypeRx.imu
device_for ChannelRx.motor = some DeviceTypeRx.motor
device_for ChannelRx.gripper = some DeviceTypeRx.gripper
device_for ChannelRx.pump = some DeviceTypeRx.pump
device_for ChannelRx.power_board = some DeviceTypeRx.power_board
device_for ChannelRx.force_torque = some DeviceTypeRx.force_torque
device_for ChannelRx.valve = some DeviceTypeRx.valve
device_for ChannelRx.count = none

-- The enumerator's value, which indexes the channel caches.
unfoldable pub channel_index : ChannelRx → ℕ
channel_index ChannelRx.imu = 0
channel_index ChannelRx.motor = 1
channel_index ChannelRx.gripper = 2
channel_index ChannelRx.pump = 3
channel_index ChannelRx.power_board = 4
channel_index ChannelRx.force_torque = 5
channel_index ChannelRx.valve = 6
channel_index ChannelRx.count = 7

unfoldable pub channel_count : ℕ
unfolding channel_index
channel_count = channel_index ChannelRx.count

-- `CHANNELS_ARRAY`.
unfoldable pub channels_array : List ChannelRx
channels_array =
    ChannelRx.imu ∷ ChannelRx.motor ∷ ChannelRx.gripper ∷ ChannelRx.pump ∷ ChannelRx.power_board
    ∷ ChannelRx.force_torque ∷ ChannelRx.valve ∷ []

pub data ChannelTx : Type 0 where
  motor pump valve gripper count : ChannelTx

pub data DeviceTypeTx : Type 0 where
  motor gripper pump valve : DeviceTypeTx

-- `device_for` of a transmit channel: the lookup in `k_map_channeltx_to_devicetx`.
unfoldable pub device_for_tx : ChannelTx → Option DeviceTypeTx
device_for_tx ChannelTx.motor = some DeviceTypeTx.motor
device_for_tx ChannelTx.gripper = some DeviceTypeTx.gripper
device_for_tx ChannelTx.pump = some DeviceTypeTx.pump
device_for_tx ChannelTx.valve = some DeviceTypeTx.valve
device_for_tx ChannelTx.count = none
