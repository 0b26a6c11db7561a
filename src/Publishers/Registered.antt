-- ===== src/Publishers/Registered.antt =====
-- adapters/adapter_publishers.hpp as a whole: registrations and cycles in any order.
use ecat_middleware_advr.Prelude.{
  ℕ, ◌<◌, ◌≤◌, ◌≡◌, refl, ◌≢◌, ◌⊎◌, inl, inr, Bool, true, false, ◌&&◌, ◌||◌, List, [], ◌∷◌, Option,
  none, some, arith, ltb, ◌==◌, Bool-cases, contains, All, is_empty,
}
use ecat_middleware_advr.Channel.{
  ChannelRx, DeviceTypeRx, device_for, channel_index, channels_array,
}
use ecat_middleware_advr.Pdo.{PdoMessage}
use ecat_middleware_advr.Publishers.{
  PdoCache, ChannelCaches, Subscription, AdapterPublishers, no_ids, max_ecat_ids, new_subscription,
  register_publisher, fill_device, fill_channels, fill_cache, spin_once,
}
use ecat_middleware_advr.Publishers.Masks.{allow_ids_lem}
use ecat_middleware_advr.Publishers.Cache.{
  IsWellFormed, fill_channel-IsWellFormed, empty_cache, empty_cache-IsWellFormed,
}
use ecat_middleware_advr.Publishers.Fill.{last_of}
use ecat_middleware_advr.Publishers.Dispatch.Offers.{offers, wants, delivered}
use ecat_middleware_advr.Publishers.Dispatch.Firsts.{firsts_none}
use ecat_middleware_advr.Publishers.Dispatch.Cycle.{reported, reported_filtered}

-- What may happen to an adapter: a publisher is registered, or a cycle runs, on the connection's
-- state and on what the queues hold.
pub data Happening (Pdo : Type 0) : Type 0 where
  registers : List ChannelRx → List ℕ → Happening Pdo
  cycles : Bool → (DeviceTypeRx → List Pdo) → Happening Pdo

module _ {Pdo : Type 0} ⦃m : PdoMessage Pdo⦄ where
  fill_device-IsWellFormed :
      (queue_for : DeviceTypeRx → List Pdo) (c : ChannelRx) (d : Option DeviceTypeRx)
      (caches : ChannelCaches Pdo)
      → ((i : ℕ) → IsWellFormed (caches i))
      → (i : ℕ) → IsWellFormed (fill_device queue_for c d caches i)
  unfolding fill_device
  fill_device-IsWellFormed queue_for c none caches w i = w i
  fill_device-IsWellFormed queue_for c (some device) caches w i =
      elim (Bool-cases (channel_index c == i)) [
        | inl e ↦ rw e (fill_channel-IsWellFormed (caches i) (queue_for device) (w i))
        | inr e ↦ rw e (w i)
      ]

  fill_channels-IsWellFormed :
      (queue_for : DeviceTypeRx → List Pdo) (cs : List ChannelRx) (caches : ChannelCaches Pdo)
      → ((i : ℕ) → IsWellFormed (caches i))
      → (i : ℕ) → IsWellFormed (fill_channels queue_for cs caches i)
  unfolding fill_channels
  fill_channels-IsWellFormed queue_for [] caches w = w
  fill_channels-IsWellFormed queue_for (c ∷ cs) caches w =
      fill_channels-IsWellFormed queue_for cs (fill_device queue_for c (device_for c) caches)
        (fill_device-IsWellFormed queue_for c (device_for c) caches w)

  abbrev pub AllWellFormed : AdapterPublishers Pdo → Type 0
  AllWellFormed a = (i : ℕ) → IsWellFormed (a.cache i)

  spin_once-AllWellFormed :
      (ok : Bool) (queue_for : DeviceTypeRx → List Pdo) (a : AdapterPublishers Pdo)
      → AllWellFormed a
      → AllWellFormed (spin_once ok queue_for a)
  unfolding spin_once fill_cache
  spin_once-AllWellFormed true queue_for a w =
      fill_channels-IsWellFormed queue_for channels_array a.cache w
  spin_once-AllWellFormed false queue_for a w = w

  pub happen : AdapterPublishers Pdo → Happening Pdo → AdapterPublishers Pdo
  happen a (registers channels ids) = register_publisher channels ids a
  happen a (cycles ok queue_for) = spin_once ok queue_for a

  pub happen_all : AdapterPublishers Pdo → List (Happening Pdo) → AdapterPublishers Pdo
  happen_all a [] = a
  happen_all a (h ∷ hs) = happen_all (happen a h) hs

  -- An adapter as it is built: no publisher, and empty caches.
  abbrev pub new_adapter : Pdo → AdapterPublishers Pdo
  new_adapter pdo = record { subscriptions = []; cache = λ i. empty_cache pdo }

  happen_all-AllWellFormed :
      (a : AdapterPublishers Pdo) (hs : List (Happening Pdo))
      → AllWellFormed a
      → AllWellFormed (happen_all a hs)
  unfolding happen_all happen register_publisher
  happen_all-AllWellFormed a [] w = w
  happen_all-AllWellFormed a (registers channels ids ∷ hs) w =
      happen_all-AllWellFormed (register_publisher channels ids a) hs w
  happen_all-AllWellFormed a (cycles ok queue_for ∷ hs) w =
      happen_all-AllWellFormed (spin_once ok queue_for a) hs
        (spin_once-AllWellFormed ok queue_for a w)

  -- Whatever is registered and received, and in whatever order, every channel cache stays well
  -- formed: its list holds the valid entries, each once, and only indices of the array.
  pub happen_all-IsWellFormed :
      (pdo : Pdo) (hs : List (Happening Pdo)) (i : ℕ)
      → IsWellFormed ((happen_all (new_adapter pdo) hs).cache i)
  happen_all-IsWellFormed pdo hs =
      happen_all-AllWellFormed (new_adapter pdo) hs (λ i. empty_cache-IsWellFormed pdo)

  -- A delivery is the last PDO for its ID in the queue of one of the channels.
  abbrev pub FromQueues : (DeviceTypeRx → List Pdo) → List ChannelRx → ℕ × Pdo → Type 0
  FromQueues queue_for [] d = ⊥
  FromQueues queue_for (c ∷ cs) d =
      ((device : DeviceTypeRx) × (device_for c ≡ some device)
        × (last_of d.0 (queue_for device) ≡ some d.1))
      ⊎ FromQueues queue_for cs d

-- A subscription admits just the IDs of its list that are in range; one with no list admits all.
pub new_subscription-wants :
    {Pdo : Type 0} (channels : List ChannelRx) (ids : List ℕ) (id : ℕ) (e : PdoCache Pdo)
    → wants (new_subscription channels ids) id e
      ≡ (e.updated_this_cycle && (is_empty ids || (ltb id max_ecat_ids && contains ids id)))
new_subscription-wants channels ids id e = ground (arith, allow_ids_lem ids no_ids id)

contains-out_of_range :
    (ids : List ℕ) (id : ℕ)
    → All (λ j. max_ecat_ids ≤ j) ids
    → id < max_ecat_ids
    → contains ids id ≡ false
unfolding contains
contains-out_of_range [] id over lt = refl
contains-out_of_range (j ∷ ids) id over lt = ground (arith, contains-out_of_range ids id over.1 lt)

-- A publisher whose list holds IDs out of range only gets no PDO, and every cycle of it is reported
-- as valid.
pub out_of_range_reported :
    {Pdo : Type 0} (caches : ChannelCaches Pdo) (channels : List ChannelRx) (ids : List ℕ)
    → ids ≢ []
    → All (λ j. max_ecat_ids ≤ j) ids
    → let s = new_subscription channels ids in
      (reported caches s ≡ true) × (delivered caches s ≡ [])
out_of_range_reported {Pdo} caches channels ids listed over = (
  (reported_filtered caches s filtered).1 (λ id lt allowed. cc (nothing_allowed id)),
  firsts_none (wants s) no_ids (offers caches channels)
      λ id e. ground (arith, filtered, nothing_allowed id),
)
  where
    s : Subscription Pdo
    s = new_subscription channels ids

    filtered : is_empty ids ≡ false
    filtered = ground arith

    nothing_allowed : (id : ℕ) → s.ids_allowed id ≡ false
    nothing_allowed id =
        ground (arith, allow_ids_lem ids no_ids id, contains-out_of_range ids id over)
