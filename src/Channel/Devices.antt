-- ===== src/Channel/Devices.antt =====
-- The channel tables: every listed channel has a device, no two share one, and the index of each
-- stays below the number of channel caches.
use ecat_middleware_advr.Prelude.{◌<◌, ◌≡◌, ◌≢◌, ◌↔◌, [], ◌∷◌, none, some, arith, All, map}
use ecat_middleware_advr.Channel.{
  ChannelRx, ChannelTx, DeviceTypeRx, DeviceTypeTx, device_for, device_for_tx, channel_index,
  channel_count, channels_array,
}

-- The sentinel is the one receive channel with no device, and two receive channels with one device
-- are the same channel.
pub device_for_injective :
    (c d : ChannelRx) (v : DeviceTypeRx) → device_for c ≡ some v → device_for d ≡ some v → c ≡ d
unfolding device_for
device_for_injective c d v h k = ground arith

pub device_for_tx_injective :
    (c d : ChannelTx) (v : DeviceTypeTx)
    → device_for_tx c ≡ some v
    → device_for_tx d ≡ some v
    → c ≡ d
unfolding device_for_tx
device_for_tx_injective c d v h k = ground arith

pub device_for-none : (c : ChannelRx) → (device_for c ≡ none) ↔ (c ≡ ChannelRx.count)
unfolding device_for
device_for-none c = ground arith

pub channel_index_lt : (c : ChannelRx) → c ≢ ChannelRx.count → channel_index c < channel_count
unfolding channel_count
channel_index_lt c h = ground arith

pub channel_index_injective : (c d : ChannelRx) → channel_index c ≡ channel_index d → c ≡ d
unfolding channel_index
channel_index_injective c d h = ground arith

-- `CHANNELS_ARRAY` lists the channels in the order of their indices, each with a device.
pub channels_array_lem :
    (map channel_index channels_array ≡ 0 ∷ 1 ∷ 2 ∷ 3 ∷ 4 ∷ 5 ∷ 6 ∷ [])
    × All (λ c. device_for c ≢ none) channels_array
unfolding channels_array channel_index device_for
channels_array_lem = ground arith
