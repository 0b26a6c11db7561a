-- ===== src/Publishers/Fill.antt =====
-- What `fill_cache` of adapters/adapter_publishers.hpp leaves in a channel cache.
use ecat_middleware_advr.Prelude.{
  ℕ, ◌≡◌, refl, ap, ◌∙◌, inl, inr, true, false, ◌&&◌, List, [], ◌∷◌, Option, none, some, arith,
  if◌then◌else◌, ◌==◌, Bool-cases, to_uint32, ==_iff,
}
use mathlib.Core.Option.{some-injective}
use ecat_middleware_advr.Channel.{
  ChannelRx, DeviceTypeRx, device_for, channel_index, channels_array,
}
use ecat_middleware_advr.Pdo.{PdoMessage}
use ecat_middleware_advr.Publishers.{
  PdoCache, ChannelCache, ChannelCaches, store, receive, receive_all, fill_channel, fill_channels,
  fill_cache,
}
use ecat_middleware_advr.Publishers.Cache.{IsWellFormed, is_taken, receive-cases, clear_updated_lem}

module _ {Pdo : Type 0} ⦃m : PdoMessage Pdo⦄ where
  -- The last PDO of a list that the cache takes under an ID.
  pub last_of : ℕ → List Pdo → Option Pdo
  last_of id [] = none
  last_of id (pdo ∷ pdos) =
      let first = if is_taken pdo && to_uint32 (m.index pdo) == id then some pdo else none in
      elim (last_of id pdos) [ some later ↦ some later | none ↦ first ]

  -- The entry with a PDO received in this cycle.
  abbrev pub received_entry : ℕ → Pdo → PdoCache Pdo
  received_entry id pdo = record {
    valid = true;
    updated_this_cycle = true;
    ecat_id = id;
    pdo = pdo;
  }

  abbrev pub entry_or : PdoCache Pdo → ℕ → Option Pdo → PdoCache Pdo
  entry_or e id none = e
  entry_or e id (some pdo) = received_entry id pdo

  receive_lem :
      (c : ChannelCache Pdo) (pdo : Pdo) (id : ℕ)
      → (receive c pdo).entries id ≡ (
          if is_taken pdo && to_uint32 (m.index pdo) == id
          then received_entry id pdo
          else c.entries id)
  unfolding store
  receive_lem c pdo id = elim (receive-cases c pdo) [
    | inl (e, r) ↦ rw r (elim (Bool-cases (to_uint32 (m.index pdo) == id)) [
      | inl p ↦ rw (e, p) (ap (λ k. received_entry k pdo) ((==_iff _ id).0 p))
      | inr p ↦ rw (e, p) refl
    ])
    | inr (e, r) ↦ rw (r, e) refl
  ]

  pub receive_all_lem :
      (c : ChannelCache Pdo) (pdos : List Pdo) (id : ℕ)
      → (receive_all c pdos).entries id ≡ entry_or (c.entries id) id (last_of id pdos)
  unfolding receive_all last_of
  receive_all_lem c [] id = refl
  receive_all_lem c (pdo ∷ pdos) id =
      receive_all_lem (receive c pdo) pdos id ∙ ground (arith, receive_lem c pdo id)

  -- After a round of `fill_cache` on a well-formed cache the entry of an ID holds the last PDO that
  -- the queue had for it, marked as updated; where the queue had none, the entry is as it was, and
  -- not marked, whatever it was before.
  pub fill_channel_lem :
      (c : ChannelCache Pdo) (pdos : List Pdo) (id : ℕ)
      → IsWellFormed c
      → (fill_channel c pdos).entries id
        ≡ entry_or (record (c.entries id) { updated_this_cycle = false }) id (last_of id pdos)
  unfolding fill_channel
  fill_channel_lem c pdos id w =
      receive_all_lem _ pdos id
      ∙ ground (arith, clear_updated_lem c.active_ids c.entries id, w.listed id, w.fresh id)

  same_queue :
      (queue_for : DeviceTypeRx → List Pdo) (c : ChannelCache Pdo) {v d : DeviceTypeRx}
      → some v ≡ some d
      → fill_channel c (queue_for v) ≡ fill_channel c (queue_for d)
  same_queue queue_for c {v} {d} h = ap (λ k. fill_channel c (queue_for k)) (some-injective v d h)

  -- `fill_cache` fills the cache of every channel with a device from the queue of that device, and
  -- from no other: the channels do not touch one another.
  pub fill_cache_lem :
      (queue_for : DeviceTypeRx → List Pdo) (caches : ChannelCaches Pdo) (c : ChannelRx)
      (d : DeviceTypeRx)
      → device_for c ≡ some d
      → fill_cache queue_for caches (channel_index c)
        ≡ fill_channel (caches (channel_index c)) (queue_for d)
  unfolding fill_cache fill_channels channels_array channel_index device_for
  fill_cache_lem queue_for caches ChannelRx.imu d h = same_queue queue_for (caches 0) h
  fill_cache_lem queue_for caches ChannelRx.motor d h = same_queue queue_for (caches 1) h
  fill_cache_lem queue_for caches ChannelRx.gripper d h = same_queue queue_for (caches 2) h
  fill_cache_lem queue_for caches ChannelRx.pump d h = same_queue queue_for (caches 3) h
  fill_cache_lem queue_for caches ChannelRx.power_board d h = same_queue queue_for (caches 4) h
  fill_cache_lem queue_for caches ChannelRx.force_torque d h = same_queue queue_for (caches 5) h
  fill_cache_lem queue_for caches ChannelRx.valve d h = same_queue queue_for (caches 6) h
  fill_cache_lem queue_for caches ChannelRx.count d h = cc
