-- ===== src/Discover/Found.antt =====
-- The map that the discovery of utils/ecat_discover.hpp fills: its well-formedness.
use ecat_middleware_advr.Prelude.{
  ℕ, ◌≡◌, refl, subst, sym, true, false, inl, inr, List, [], ◌∷◌, map-append, Option, none, some,
  contains, Distinct, Distinct-snoc, All, All-append, Bool-cases, to_uint32, arith,
}
use ecat_middleware_advr.Pdo.{PdoMessage}
use ecat_middleware_advr.Channel.{ChannelRx, DeviceTypeRx, device_for, channels_array}
use ecat_middleware_advr.Discover.{
  EcatMetadata, EcatMap, ids, is_skipped, metadata, observe, observe_all, observe_device,
  observe_channels, discover_once,
}

-- An entry is for a requested ID, under its own ID, on the channel of its device.
abbrev pub IsEntry : List ℕ → ℕ × EcatMetadata → Type 0
IsEntry ecat_ids (id, device) =
    (contains ecat_ids id ≡ true)
    × (device.ecat_id ≡ id)
    × (device_for device.channel ≡ some device.device)

-- No ID twice, and only entries of requested devices.
abbrev pub IsMap : List ℕ → EcatMap → Type 0
IsMap ecat_ids ecat_map = Distinct (ids ecat_map) × All (IsEntry ecat_ids) ecat_map

module _ {Pdo : Type 0} ⦃m : PdoMessage Pdo⦄ (ecat_ids : List ℕ) where
  observe-IsMap :
      (channel : ChannelRx) (device : DeviceTypeRx) (ecat_map : EcatMap) (pdo : Pdo)
      → device_for channel ≡ some device
      → IsMap ecat_ids ecat_map
      → IsMap ecat_ids (observe ecat_ids channel device ecat_map pdo)
  unfolding observe is_skipped
  observe-IsMap channel device ecat_map pdo d h =
      elim (Bool-cases (is_skipped ecat_ids ecat_map pdo)) [
        | inl e ↦ rw e h
        | inr e ↦
            let id = to_uint32 (m.index pdo) in
            let fresh : contains (ids ecat_map) id ≡ false = ground arith in
            let wanted : contains ecat_ids id ≡ true = ground arith in
            let entry = metadata channel device pdo in
            rw e (
              subst Distinct
                  (sym (
                    map-append (λ (entry : ℕ × EcatMetadata). entry.0) ecat_map ((id, entry) ∷ [])))
                  (Distinct-snoc (ids ecat_map) id h.0 fresh),
              All-append (IsEntry ecat_ids) ecat_map ((id, entry) ∷ []) h.1 ((wanted, refl, d), tt),
            )
      ]

  observe_all-IsMap :
      (channel : ChannelRx) (device : DeviceTypeRx) (ecat_map : EcatMap) (pdos : List Pdo)
      → device_for channel ≡ some device
      → IsMap ecat_ids ecat_map
      → IsMap ecat_ids (observe_all ecat_ids channel device ecat_map pdos)
  unfolding observe_all
  observe_all-IsMap channel device ecat_map [] d h = h
  observe_all-IsMap channel device ecat_map (pdo ∷ pdos) d h =
      observe_all-IsMap channel device (observe ecat_ids channel device ecat_map pdo) pdos d
        (observe-IsMap channel device ecat_map pdo d h)

  observe_device-IsMap :
      (queue_for : DeviceTypeRx → List Pdo) (channel : ChannelRx) (device : Option DeviceTypeRx)
      (ecat_map : EcatMap)
      → device_for channel ≡ device
      → IsMap ecat_ids ecat_map
      → IsMap ecat_ids (observe_device ecat_ids queue_for channel device ecat_map)
  unfolding observe_device
  observe_device-IsMap queue_for channel none ecat_map d h = h
  observe_device-IsMap queue_for channel (some device) ecat_map d h =
      observe_all-IsMap channel device ecat_map (queue_for device) d h

  observe_channels-IsMap :
      (queue_for : DeviceTypeRx → List Pdo) (channels : List ChannelRx) (ecat_map : EcatMap)
      → IsMap ecat_ids ecat_map
      → IsMap ecat_ids (observe_channels ecat_ids queue_for channels ecat_map)
  unfolding observe_channels
  observe_channels-IsMap queue_for [] ecat_map h = h
  observe_channels-IsMap queue_for (channel ∷ channels) ecat_map h =
      observe_channels-IsMap queue_for channels _
        (observe_device-IsMap queue_for channel _ ecat_map refl h)

  -- A round of the discovery keeps the map well formed.
  pub discover_once-IsMap :
      (queue_for : DeviceTypeRx → List Pdo) (ecat_map : EcatMap)
      → IsMap ecat_ids ecat_map
      → IsMap ecat_ids (discover_once ecat_ids queue_for ecat_map)
  unfolding discover_once
  discover_once-IsMap queue_for ecat_map h =
      observe_channels-IsMap queue_for channels_array ecat_map h
