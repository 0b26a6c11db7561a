-- ===== src/Discover/Complete.antt =====
-- `EcatDiscover::discover` of utils/ecat_discover.hpp: what it returns, and that it returns.
use ecat_middleware_advr.Prelude.{
  ℕ, suc, ◌≡◌, refl, subst, ap, Bool, true, false, ◌&&◌, ◌||◌, not, inl, inr, ltb, List, [], ◌∷◌,
  map-append, Option, none, some, contains, contains-append, Distinct, All, length, any_of,
  Bool-ext, is_neg, Bool-cases, to_uint32, arith, ◌==◌, ==_iff,
}
use ecat_middleware_advr.Pdo.{PdoMessage}
use ecat_middleware_advr.Channel.{ChannelRx, DeviceTypeRx, device_for, channels_array}
use ecat_middleware_advr.Discover.{
  EcatMetadata, EcatMap, ids, is_skipped, metadata, observe, observe_all, observe_device,
  observe_channels, discover_once, discover_rounds, discover,
}
use ecat_middleware_advr.Discover.Found.{IsEntry, IsMap, discover_once-IsMap}
use ecat_middleware_advr.Discover.Pigeonhole.{contains-all, length-contained}

length-ids : (ecat_map : EcatMap) → length (ids ecat_map) ≡ length ecat_map
length-ids [] = refl
length-ids (entry ∷ rest) = ap suc (length-ids rest)

or_later :
    (a b c d : Bool) → (a || (b || c)) ≡ true → ((a || b) ≡ true → d ≡ true) → (d || c) ≡ true
or_later true b c d h f = rw (f refl) refl
or_later false true c d h f = rw (f refl) refl
or_later false false c d h f = ground arith

entries_wanted :
    (ecat_ids : List ℕ) (ecat_map : EcatMap)
    → All (IsEntry ecat_ids) ecat_map
    → (id : ℕ) → contains (ids ecat_map) id ≡ true
    → contains ecat_ids id ≡ true
unfolding contains
entries_wanted ecat_ids [] h id k = cc
entries_wanted ecat_ids (entry ∷ rest) h id k = elim (Bool-cases (entry.0 == id)) [
  | inl e ↦ subst (λ i. contains ecat_ids i ≡ true) ((==_iff _ _).0 e) h.0.0
  | inr e ↦ entries_wanted ecat_ids rest h.1 id (ground arith)
]

module _ {Pdo : Type 0} ⦃m : PdoMessage Pdo⦄ where
  -- The PDO is of the device with this ID.
  abbrev pub announces : ℕ → Pdo → Bool
  announces id pdo =
      m.has_header pdo
      && m.has_index pdo
      && not (is_neg (m.index pdo))
      && to_uint32 (m.index pdo) == id

  abbrev pub device_announces : (DeviceTypeRx → List Pdo) → ℕ → Option DeviceTypeRx → Bool
  device_announces queue_for id none = false
  device_announces queue_for id (some device) = any_of (announces id) (queue_for device)

  -- A queue of the round holds a PDO of the device.
  abbrev pub round_announces : ℕ → (DeviceTypeRx → List Pdo) → Bool
  round_announces id queue_for =
      any_of (λ channel. device_announces queue_for id (device_for channel)) channels_array

module _ {Pdo : Type 0} ⦃m : PdoMessage Pdo⦄ (ecat_ids : List ℕ) where
  observe-keeps :
      (channel : ChannelRx) (device : DeviceTypeRx) (ecat_map : EcatMap) (pdo : Pdo) (id : ℕ)
      → contains ecat_ids id ≡ true
      → (contains (ids ecat_map) id || announces id pdo) ≡ true
      → contains (ids (observe ecat_ids channel device ecat_map pdo)) id ≡ true
  unfolding observe is_skipped contains
  observe-keeps channel device ecat_map pdo id w h =
      elim (Bool-cases (is_skipped ecat_ids ecat_map pdo)) [
        | inl e ↦ rw e (skipped e)
        | inr e ↦
            let added = to_uint32 (m.index pdo) in
            rw
              (
                e,
                map-append (λ (entry : ℕ × EcatMetadata). entry.0) ecat_map
                    ((added, metadata channel device pdo) ∷ []),
                contains-append (ids ecat_map) (added ∷ []) id,
              )
              (ground arith)
      ]
    where
      skipped : is_skipped ecat_ids ecat_map pdo ≡ true → contains (ids ecat_map) id ≡ true
      skipped e = elim (Bool-cases (contains (ids ecat_map) id)) [
        | inl k ↦ k
        | inr k ↦
            let same : to_uint32 (m.index pdo) ≡ id = (==_iff _ _).0 (ground arith) in
            ground
              (arith, ap (λ i. contains ecat_ids i) same, ap (λ i. contains (ids ecat_map) i) same)
      ]

  observe_all-keeps :
      (channel : ChannelRx) (device : DeviceTypeRx) (ecat_map : EcatMap) (pdos : List Pdo) (id : ℕ)
      → contains ecat_ids id ≡ true
      → (contains (ids ecat_map) id || any_of (announces id) pdos) ≡ true
      → contains (ids (observe_all ecat_ids channel device ecat_map pdos)) id ≡ true
  unfolding observe_all any_of
  observe_all-keeps channel device ecat_map [] id w h = ground arith
  observe_all-keeps channel device ecat_map (pdo ∷ pdos) id w h =
      let next = observe ecat_ids channel device ecat_map pdo in
      let step : (contains (ids ecat_map) id || announces id pdo) ≡ true
          → contains (ids next) id ≡ true =
        observe-keeps channel device ecat_map pdo id w in
      observe_all-keeps channel device (observe ecat_ids channel device ecat_map pdo) pdos id w (
        or_later (contains (ids ecat_map) id) (announces id pdo) (any_of (announces id) pdos) _ h
          step)

  observe_device-keeps :
      (queue_for : DeviceTypeRx → List Pdo) (channel : ChannelRx) (device : Option DeviceTypeRx)
      (ecat_map : EcatMap) (id : ℕ)
      → contains ecat_ids id ≡ true
      → (contains (ids ecat_map) id || device_announces queue_for id device) ≡ true
      → contains (ids (observe_device ecat_ids queue_for channel device ecat_map)) id ≡ true
  unfolding observe_device
  observe_device-keeps queue_for channel none ecat_map id w h = ground arith
  observe_device-keeps queue_for channel (some device) ecat_map id w h =
      observe_all-keeps channel device ecat_map (queue_for device) id w h

  observe_channels-keeps :
      (queue_for : DeviceTypeRx → List Pdo) (channels : List ChannelRx) (ecat_map : EcatMap)
      (id : ℕ)
      → contains ecat_ids id ≡ true
      → (contains (ids ecat_map) id
          || any_of (λ channel. device_announces queue_for id (device_for channel)) channels)
        ≡ true
      → contains (ids (observe_channels ecat_ids queue_for channels ecat_map)) id ≡ true
  unfolding observe_channels any_of
  observe_channels-keeps queue_for [] ecat_map id w h = ground arith
  observe_channels-keeps queue_for (channel ∷ channels) ecat_map id w h =
      observe_channels-keeps queue_for channels
        (observe_device ecat_ids queue_for channel (device_for channel) ecat_map) id w
        (or_later (contains (ids ecat_map) id) (device_announces queue_for id (device_for channel))
          _ _ h (observe_device-keeps queue_for channel (device_for channel) ecat_map id w))

  -- What a round with this ID, or the map before it, holds is in the map after it.
  discover_once-keeps :
      (queue_for : DeviceTypeRx → List Pdo) (ecat_map : EcatMap) (id : ℕ)
      → contains ecat_ids id ≡ true
      → (contains (ids ecat_map) id || round_announces id queue_for) ≡ true
      → contains (ids (discover_once ecat_ids queue_for ecat_map)) id ≡ true
  unfolding discover_once
  discover_once-keeps queue_for ecat_map id w h =
      observe_channels-keeps queue_for channels_array ecat_map id w h

module _ (ecat_ids : List ℕ) where
  -- A well-formed map that is not smaller than the set of requested IDs has them all.
  full :
      (ecat_map : EcatMap)
      → IsMap ecat_ids ecat_map
      → ltb (length ecat_map) (length ecat_ids) ≡ false
      → (id : ℕ) → contains ecat_ids id ≡ true
      → contains (ids ecat_map) id ≡ true
  full ecat_map h done =
      contains-all (ids ecat_map) ecat_ids h.0 (λ id k. entries_wanted ecat_ids ecat_map h.1 id k)
        (ground (arith, length-ids ecat_map))

  -- A map that has all of them is not smaller.
  enough :
      (ecat_map : EcatMap)
      → Distinct ecat_ids
      → ((id : ℕ) → contains ecat_ids id ≡ true → contains (ids ecat_map) id ≡ true)
      → ltb (length ecat_map) (length ecat_ids) ≡ false
  enough ecat_map d all =
      ground (arith, length-contained ecat_ids (ids ecat_map) d all, length-ids ecat_map)

or_false : (b : Bool) → (b || false) ≡ true → b ≡ true
or_false b h = ground arith

finished :
    (ecat_ids : List ℕ) (ecat_map result : EcatMap)
    → IsMap ecat_ids ecat_map
    → ltb (length ecat_map) (length ecat_ids) ≡ false
    → some ecat_map ≡ some result
    → IsMap ecat_ids result × (ltb (length result) (length ecat_ids) ≡ false)
finished ecat_ids ecat_map result h done e =
    let same : ecat_map ≡ result = cc in
    subst (λ r. IsMap ecat_ids r × (ltb (length r) (length ecat_ids) ≡ false)) same (h, done)

module _ {Pdo : Type 0} ⦃m : PdoMessage Pdo⦄ (ecat_ids : List ℕ) where
  discover_rounds-some :
      (rounds : List (DeviceTypeRx → List Pdo)) (ecat_map result : EcatMap)
      → IsMap ecat_ids ecat_map
      → discover_rounds ecat_ids rounds ecat_map ≡ some result
      → IsMap ecat_ids result × (ltb (length result) (length ecat_ids) ≡ false)
  unfolding discover_rounds
  discover_rounds-some [] ecat_map result h e =
      elim (Bool-cases (ltb (length ecat_map) (length ecat_ids))) [
        | inl less ↦ absurd (ground arith)
        | inr done ↦ finished ecat_ids ecat_map result h done (ground arith)
      ]
  discover_rounds-some (queue_for ∷ rounds) ecat_map result h e =
      let next = discover_once ecat_ids queue_for ecat_map in
      elim (Bool-cases (ltb (length ecat_map) (length ecat_ids))) [
        | inl less ↦
            discover_rounds-some rounds (discover_once ecat_ids queue_for ecat_map) result
              (discover_once-IsMap ecat_ids queue_for ecat_map h) (ground arith)
        | inr done ↦ finished ecat_ids ecat_map result h done (ground arith)
      ]

  discover_rounds-returns :
      (rounds : List (DeviceTypeRx → List Pdo)) (ecat_map : EcatMap)
      → Distinct ecat_ids
      → ((id : ℕ)
          → contains ecat_ids id ≡ true
          → (contains (ids ecat_map) id || any_of (round_announces id) rounds) ≡ true)
      → (result : EcatMap) × (discover_rounds ecat_ids rounds ecat_map ≡ some result)
  unfolding discover_rounds any_of
  discover_rounds-returns [] ecat_map d seen =
      (ecat_map, rw (enough ecat_ids ecat_map d (λ id w. or_false _ (seen id w))) refl)
  discover_rounds-returns (queue_for ∷ rounds) ecat_map d seen =
      let (result, ran) =
        discover_rounds-returns rounds (discover_once ecat_ids queue_for ecat_map) d (λ id w.
          or_later (contains (ids ecat_map) id) (round_announces id queue_for) _ _ (seen id w)
            (discover_once-keeps ecat_ids queue_for ecat_map id w)) in
      elim (Bool-cases (ltb (length ecat_map) (length ecat_ids))) [
        | inl less ↦ (result, rw less ran)
        | inr done ↦ (ecat_map, rw done refl)
      ]

  -- When the discovery of a connected client returns, its map is well formed and has exactly the
  -- requested IDs.
  pub discover_complete :
      (rounds : List (DeviceTypeRx → List Pdo)) (result : EcatMap)
      → discover true ecat_ids rounds ≡ some result
      → IsMap ecat_ids result × ((id : ℕ) → contains (ids result) id ≡ contains ecat_ids id)
  unfolding discover
  discover_complete rounds result e =
      let (h, done) = discover_rounds-some rounds [] result (tt, tt) e in
      (
        h,
        λ id. Bool-ext _ _ (entries_wanted ecat_ids result h.1 id) (full ecat_ids result h done id),
      )

  -- It returns as soon as the rounds have held a PDO of every requested device, which are distinct.
  pub discover_returns :
      (rounds : List (DeviceTypeRx → List Pdo))
      → Distinct ecat_ids
      → ((id : ℕ) → contains ecat_ids id ≡ true → any_of (round_announces id) rounds ≡ true)
      → (result : EcatMap) × (discover true ecat_ids rounds ≡ some result)
  unfolding discover contains
  discover_returns rounds d seen = discover_rounds-returns rounds [] d seen
