-- ===== src/Discover.antt =====
-- The discovery of EtherCAT devices, utils/ecat_discover.hpp of core/advrf_middleware_core. The shared
-- memory is what `peek_all` finds in the queue of each device, and changes from round to round.
pub mod Found
pub mod Pigeonhole
pub mod Complete
use ecat_middleware_advr.Prelude.{
  ℕ, Bool, true, false, ◌&&◌, ◌||◌, not, ltb, if◌then◌else◌, List, [], ◌∷◌, ◌++◌, map, Option, none,
  some, Text, codes, is_empty, to_string, length, contains, is_neg, to_uint32, ◌==◌,
}
use ecat_middleware_advr.Pdo.{PdoType, PdoMessage}
use ecat_middleware_advr.Channel.{ChannelRx, DeviceTypeRx, device_for, channels_array}

pub record EcatMetadata : Type 0 where
  pub ecat_id : ℕ
  pub name : Text
  pub type : PdoType
  pub channel : ChannelRx
  pub device : DeviceTypeRx

-- The `unordered_map` by ID. `emplace` adds at the end.
abbrev pub EcatMap : Type 0
EcatMap = List (ℕ × EcatMetadata)

abbrev pub ids : EcatMap → List ℕ
ids = map (λ (entry : ℕ × EcatMetadata). entry.0)

module _ {Pdo : Type 0} ⦃m : PdoMessage Pdo⦄ where
  abbrev pub device_label : Pdo → ℕ → Text
  device_label pdo id =
      if m.has_str_id pdo && not (is_empty (m.str_id pdo))
      then m.str_id pdo
      else codes "ecat_" ++ to_string id

  -- Whether the callback returns before `emplace`. `std::set` and `unordered_map` are searched.
  unfoldable pub is_skipped : List ℕ → EcatMap → Pdo → Bool
  is_skipped ecat_ids ecat_map pdo =
      not (m.has_header pdo && m.has_index pdo)
      || is_neg (m.index pdo)
      || not (contains ecat_ids (to_uint32 (m.index pdo)))
      || contains (ids ecat_map) (to_uint32 (m.index pdo))

  abbrev pub metadata : ChannelRx → DeviceTypeRx → Pdo → EcatMetadata
  metadata channel device pdo =
      let id = to_uint32 (m.index pdo) in
      record {
        ecat_id = id;
        name = device_label pdo id;
        type = m.pdo_type pdo;
        channel = channel;
        device = device;
      }

  -- The callback of `peek_all`.
  unfoldable pub observe : List ℕ → ChannelRx → DeviceTypeRx → EcatMap → Pdo → EcatMap
  observe ecat_ids channel device ecat_map pdo =
      if is_skipped ecat_ids ecat_map pdo
      then ecat_map
      else ecat_map ++ (to_uint32 (m.index pdo), metadata channel device pdo) ∷ []

  unfoldable pub observe_all : List ℕ → ChannelRx → DeviceTypeRx → EcatMap → List Pdo → EcatMap
  observe_all ecat_ids channel device ecat_map [] = ecat_map
  observe_all ecat_ids channel device ecat_map (pdo ∷ pdos) =
      observe_all ecat_ids channel device (observe ecat_ids channel device ecat_map pdo) pdos

  -- The body of the loop over the channels; one without a device is skipped.
  unfoldable pub observe_device :
      List ℕ → (DeviceTypeRx → List Pdo) → ChannelRx → Option DeviceTypeRx → EcatMap → EcatMap
  observe_device ecat_ids queue_for channel none ecat_map = ecat_map
  observe_device ecat_ids queue_for channel (some device) ecat_map =
      observe_all ecat_ids channel device ecat_map (queue_for device)

  unfoldable pub observe_channels :
      List ℕ → (DeviceTypeRx → List Pdo) → List ChannelRx → EcatMap → EcatMap
  observe_channels ecat_ids queue_for [] ecat_map = ecat_map
  observe_channels ecat_ids queue_for (channel ∷ channels) ecat_map =
      observe_channels ecat_ids queue_for channels
        (observe_device ecat_ids queue_for channel (device_for channel) ecat_map)

  unfoldable pub discover_once : List ℕ → (DeviceTypeRx → List Pdo) → EcatMap → EcatMap
  discover_once ecat_ids queue_for = observe_channels ecat_ids queue_for channels_array

  -- The loop of `discover`, over the queues that its rounds find: `none` while it still waits when they
  -- are used up.
  unfoldable pub discover_rounds :
      List ℕ → List (DeviceTypeRx → List Pdo) → EcatMap → Option EcatMap
  discover_rounds ecat_ids [] ecat_map =
      if ltb (length ecat_map) (length ecat_ids) then none else some ecat_map
  discover_rounds ecat_ids (queue_for ∷ rounds) ecat_map =
      let next = discover_rounds ecat_ids rounds (discover_once ecat_ids queue_for ecat_map) in
      if ltb (length ecat_map) (length ecat_ids) then next else some ecat_map

  -- `is_ok` is the state of the connection.
  unfoldable pub discover : Bool → List ℕ → List (DeviceTypeRx → List Pdo) → Option EcatMap
  discover is_ok ecat_ids rounds = if is_ok then discover_rounds ecat_ids rounds [] else some []

abbrev pub find_metadata : EcatMap → ℕ → Option EcatMetadata
find_metadata [] id = none
find_metadata ((j, device) ∷ rest) id = if j == id then some device else find_metadata rest id

unfoldable pub resolve_type : EcatMap → ℕ → PdoType
resolve_type ecat_map ecat_id = elim (find_metadata ecat_map ecat_id) [
  | some device ↦ device.type
  | none ↦ PdoType.unspecified
]
