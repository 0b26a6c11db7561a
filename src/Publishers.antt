-- ===== src/Publishers.antt =====
-- adapters/adapter_publishers.hpp of core/advrf_middleware_core: received PDOs are cached by channel
-- and EtherCAT ID, and dispatched to the registered publishers. The shared memory is not in the
-- repository: what a queue holds when it is drained, and the state of the connection, are arguments.
-- A publisher is seen through the calls that it gets. An array of 256 entries is a function of the
-- index, and a bitset of 256 bits a function into Bool: `Cache` shows that no index is out of range.
pub mod Masks
pub mod Cache
pub mod Fill
pub mod Dispatch
pub mod Registered
use ecat_middleware_advr.Prelude.{
  ℕ, zero, suc, ◌≡◌, Bool, true, false, ◌&&◌, ◌||◌, not, List, [], ◌∷◌, ◌++◌, map, Option, none,
  some, if◌then◌else◌, ltb, leb, ◌==◌, ℤ, to_uint32, is_empty,
}
use ecat_middleware_advr.Channel.{
  ChannelRx, DeviceTypeRx, device_for, channel_index, channels_array,
}
use ecat_middleware_advr.Pdo.{PdoMessage}

abbrev pub max_ecat_ids : ℕ
max_ecat_ids = 256

-- `std::bitset<MaxEcatIds>`.
abbrev pub IdMask : Type 0
IdMask = ℕ → Bool

abbrev pub no_ids : IdMask
no_ids id = false

abbrev pub set_id : IdMask → ℕ → IdMask
set_id mask id j = id == j || mask j

-- `mask.any()`, over the first n bits.
unfoldable pub any_below : ℕ → IdMask → Bool
any_below zero mask = false
any_below (suc n) mask = mask n || any_below n mask

-- `mask == other`, over the first n bits.
unfoldable pub same_below : ℕ → IdMask → IdMask → Bool
same_below zero mask other = true
same_below (suc n) mask other =
    (if mask n then other n else not (other n)) && same_below n mask other

pub record PdoCache (Pdo : Type 0) : Type 0 where
  pub valid : Bool
  pub updated_this_cycle : Bool
  pub ecat_id : ℕ
  pub pdo : Pdo

pub record ChannelCache (Pdo : Type 0) : Type 0 where
  pub entries : ℕ → PdoCache Pdo
  pub active_ids : List ℕ

-- One channel cache for each channel index.
abbrev pub ChannelCaches : Type 0 → Type 0
ChannelCaches Pdo = ℕ → ChannelCache Pdo

-- A call of the `IPublisher` interface.
pub data PublisherCall (Pdo : Type 0) : Type 0 where
  begin_cycle : PublisherCall Pdo
  consume : Pdo → PublisherCall Pdo
  end_cycle : Bool → PublisherCall Pdo

-- `calls` are those that the publisher has got, the oldest first.
pub record Subscription (Pdo : Type 0) : Type 0 where
  pub calls : List (PublisherCall Pdo)
  pub channels : List ChannelRx
  pub ids_allowed : IdMask
  pub ids_seen : IdMask
  pub accept_all_ids : Bool

pub record AdapterPublishers (Pdo : Type 0) : Type 0 where
  pub subscriptions : List (Subscription Pdo)
  pub cache : ChannelCaches Pdo

-- The loop of `register_publisher` over the configured IDs; one out of range and one that is there
-- already are logged and skipped.
unfoldable pub allow_ids : IdMask → List ℕ → IdMask
allow_ids mask [] = mask
allow_ids mask (id ∷ ids) =
    allow_ids (if leb max_ecat_ids id then mask else if mask id then mask else set_id mask id) ids

module _ {Pdo : Type 0} where
  abbrev pub new_subscription : List ChannelRx → List ℕ → Subscription Pdo
  new_subscription channels ids = record {
    calls = [];
    channels = channels;
    ids_allowed = allow_ids no_ids ids;
    ids_seen = no_ids;
    accept_all_ids = is_empty ids;
  }

  unfoldable pub register_publisher :
      List ChannelRx → List ℕ → AdapterPublishers Pdo → AdapterPublishers Pdo
  register_publisher channels ids a = record a {
    subscriptions = a.subscriptions ++ new_subscription channels ids ∷ [];
  }

  -- Writing one entry of the array.
  abbrev pub set_entry : (ℕ → PdoCache Pdo) → ℕ → PdoCache Pdo → ℕ → PdoCache Pdo
  set_entry entries id e j = if id == j then e else entries j

  -- `for (id : active_ids) entries[id].updated_this_cycle = false`.
  unfoldable pub clear_updated : List ℕ → (ℕ → PdoCache Pdo) → ℕ → PdoCache Pdo
  clear_updated [] entries = entries
  clear_updated (id ∷ ids) entries =
      clear_updated ids (set_entry entries id (record (entries id) { updated_this_cycle = false }))

  -- The end of the callback: the entry of an ID that is in range.
  unfoldable pub store : ChannelCache Pdo → ℕ → Pdo → ChannelCache Pdo
  store c id received = record {
    entries =
        set_entry c.entries id
          (record { valid = true; updated_this_cycle = true; ecat_id = id; pdo = received });
    active_ids = if (c.entries id).valid then c.active_ids else c.active_ids ++ id ∷ [];
  }

  -- The callback of `drain`. A PDO with no index and one whose ID is out of range are logged.
  unfoldable pub receive : ⦃m : PdoMessage Pdo⦄ → ChannelCache Pdo → Pdo → ChannelCache Pdo
  unfolding store
  receive ⦃m⦄ c received =
      let id = to_uint32 (m.index received) in
      if not (m.has_header received) || not (m.has_index received)
      then c
      else if leb max_ecat_ids id
      then c
      else store c id received

  unfoldable pub receive_all : ⦃m : PdoMessage Pdo⦄ → ChannelCache Pdo → List Pdo → ChannelCache Pdo
  receive_all c [] = c
  receive_all c (pdo ∷ pdos) = receive_all (receive c pdo) pdos

  -- One round of the loop of `fill_cache`, with what the channel's queue held.
  unfoldable pub fill_channel :
      ⦃m : PdoMessage Pdo⦄ → ChannelCache Pdo → List Pdo → ChannelCache Pdo
  fill_channel c received =
      receive_all (record c { entries = clear_updated c.active_ids c.entries }) received

  -- The loop's body with the device of the channel; without one the channel is skipped.
  unfoldable pub fill_device :
      ⦃m : PdoMessage Pdo⦄
      → (DeviceTypeRx → List Pdo)
      → ChannelRx
      → Option DeviceTypeRx
      → ChannelCaches Pdo
      → ChannelCaches Pdo
  fill_device queue_for channel none caches i = caches i
  fill_device queue_for channel (some device) caches i =
      if channel_index channel == i then fill_channel (caches i) (queue_for device) else caches i

  unfoldable pub fill_channels :
      ⦃m : PdoMessage Pdo⦄
      → (DeviceTypeRx → List Pdo)
      → List ChannelRx
      → ChannelCaches Pdo
      → ChannelCaches Pdo
  unfolding fill_device
  fill_channels queue_for [] caches = caches
  fill_channels queue_for (channel ∷ channels) caches =
      fill_channels queue_for channels (fill_device queue_for channel (device_for channel) caches)

  unfoldable pub fill_cache :
      ⦃m : PdoMessage Pdo⦄ → (DeviceTypeRx → List Pdo) → ChannelCaches Pdo → ChannelCaches Pdo
  fill_cache queue_for = fill_channels queue_for channels_array

  -- The body of the loop of `dispatch_cache`.
  unfoldable pub dispatch_entry : ℕ → PdoCache Pdo → Subscription Pdo → Subscription Pdo
  dispatch_entry id entry s =
      if not entry.updated_this_cycle
      then s
      else if not s.accept_all_ids && not (s.ids_allowed id)
      then s
      else if s.ids_seen id
      then s
      else record s { ids_seen = set_id s.ids_seen id; calls = s.calls ++ consume entry.pdo ∷ [] }

  unfoldable pub dispatch_ids : ChannelCache Pdo → List ℕ → Subscription Pdo → Subscription Pdo
  dispatch_ids c [] s = s
  dispatch_ids c (id ∷ ids) s = dispatch_ids c ids (dispatch_entry id (c.entries id) s)

  unfoldable pub dispatch_cache : ChannelCache Pdo → Subscription Pdo → Subscription Pdo
  dispatch_cache c s = dispatch_ids c c.active_ids s

  unfoldable pub dispatch_channels :
      ChannelCaches Pdo → List ChannelRx → Subscription Pdo → Subscription Pdo
  dispatch_channels caches [] s = s
  dispatch_channels caches (channel ∷ channels) s =
      dispatch_channels caches channels (dispatch_cache (caches (channel_index channel)) s)

  -- Whether the cycle is reported as valid.
  unfoldable pub cycle_valid : Subscription Pdo → Bool
  cycle_valid s =
      if s.accept_all_ids
      then any_below max_ecat_ids s.ids_seen
      else same_below max_ecat_ids s.ids_seen s.ids_allowed

  -- One round of the loop of `dispatch`.
  unfoldable pub dispatch_subscription : ChannelCaches Pdo → Subscription Pdo → Subscription Pdo
  dispatch_subscription caches s =
      let begun = record s { ids_seen = no_ids; calls = s.calls ++ begin_cycle ∷ [] } in
      let served = dispatch_channels caches s.channels begun in
      record served { calls = served.calls ++ end_cycle (cycle_valid served) ∷ [] }

  unfoldable pub dispatch : ChannelCaches Pdo → List (Subscription Pdo) → List (Subscription Pdo)
  dispatch caches = map (dispatch_subscription caches)

  -- `rx_ok` is the state of the connection.
  unfoldable pub spin_once :
      ⦃m : PdoMessage Pdo⦄
      → Bool
      → (DeviceTypeRx → List Pdo)
      → AdapterPublishers Pdo
      → AdapterPublishers Pdo
  spin_once rx_ok queue_for a =
      if not rx_ok
      then a
      else (let filled = fill_cache queue_for a.cache in
          record { subscriptions = dispatch filled a.subscriptions; cache = filled })
