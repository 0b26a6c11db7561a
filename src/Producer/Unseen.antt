-- ===== src/Producer/Unseen.antt =====
-- What the discovery and the publishers' caches make of the PDOs of src/producer.cpp in
-- core/advrf_middleware_core.
use ecat_middleware_advr.Prelude.{
  ℕ, ℤ, pos, ◌+◌, ◌≤◌, ◌≡◌, refl, ◌∙◌, false, List, [], ◌∷◌, map, arith, All, contains, to_int32,
  to_int32_small, to_uint32_pos,
}
use ecat_middleware_advr.Channel.{ChannelRx, DeviceTypeRx}
use ecat_middleware_advr.Discover.{EcatMap, is_skipped, observe, observe_all}
use ecat_middleware_advr.Publishers.{ChannelCache, max_ecat_ids, receive, receive_all}
use ecat_middleware_advr.Producer.{Reals, RxPdo, rx_pdo_message, set_pdo_header}
use ecat_middleware_advr.Producer.Pdos.{
  make_pdo, make_imu_pdo, make_motor_pdo, make_gripper_pdo, make_pb_pdo, make_pump_pdo, make_ft_pdo,
  make_valve_pdo,
}
use ecat_middleware_advr.Producer.Master.{Slave, Clocked, produce}

module _ {D V : Type 0} (r : Reals D V) where
  make_pdo-index :
      (device : DeviceTypeRx) (t : D) (sample now : ℕ) (id : ℤ)
      → (make_pdo r device t sample now id).index ≡ to_int32 sample
  unfolding make_pdo make_imu_pdo make_motor_pdo make_gripper_pdo make_pb_pdo make_pump_pdo
      make_ft_pdo make_valve_pdo set_pdo_header
  make_pdo-index DeviceTypeRx.imu t sample now id = refl
  make_pdo-index DeviceTypeRx.motor t sample now id = refl
  make_pdo-index DeviceTypeRx.gripper t sample now id = refl
  make_pdo-index DeviceTypeRx.power_board t sample now id = refl
  make_pdo-index DeviceTypeRx.pump t sample now id = refl
  make_pdo-index DeviceTypeRx.force_torque t sample now id = refl
  make_pdo-index DeviceTypeRx.valve t sample now id = refl

  -- The PDOs of a cycle, whatever their queues.
  abbrev pub pdos_of : List (DeviceTypeRx × RxPdo V) → List (RxPdo V)
  pdos_of = map (λ (push : DeviceTypeRx × RxPdo V). push.1)

  produce-index :
      (s : Clocked D) (clock : ℕ → ℕ) (slaves : List Slave)
      → s.sample_count ≤ 2147483647
      → All (λ (pdo : RxPdo V). pdo.index ≡ pos s.sample_count) (pdos_of (produce r s clock slaves))
  unfolding produce
  produce-index s clock [] h = tt
  produce-index s clock (slave ∷ slaves) h = (
    make_pdo-index slave.type s.t s.sample_count (clock 0) _
        ∙ to_int32_small s.sample_count (omega arith),
    produce-index s (λ n. clock (n + 1)) slaves h,
  )

module _ {V : Type 0} (sample : ℕ) where
  observe-unasked :
      (ecat_ids : List ℕ) (channel : ChannelRx) (device : DeviceTypeRx) (ecat_map : EcatMap)
      (pdo : RxPdo V)
      → sample ≤ 2147483647
      → pdo.index ≡ pos sample
      → contains ecat_ids sample ≡ false
      → observe ecat_ids channel device ecat_map pdo ≡ ecat_map
  unfolding observe is_skipped
  observe-unasked ecat_ids channel device ecat_map pdo h e n =
      rw (e, to_uint32_pos sample (omega arith), n) refl

  observe_all-unasked :
      (ecat_ids : List ℕ) (channel : ChannelRx) (device : DeviceTypeRx) (ecat_map : EcatMap)
      (pdos : List (RxPdo V))
      → sample ≤ 2147483647
      → All (λ (pdo : RxPdo V). pdo.index ≡ pos sample) pdos
      → contains ecat_ids sample ≡ false
      → observe_all ecat_ids channel device ecat_map pdos ≡ ecat_map
  unfolding observe_all
  observe_all-unasked ecat_ids channel device ecat_map [] h es n = refl
  observe_all-unasked ecat_ids channel device ecat_map (pdo ∷ pdos) h es n =
      rw (observe-unasked ecat_ids channel device ecat_map pdo h es.0 n)
        (observe_all-unasked ecat_ids channel device ecat_map pdos h es.1 n)

  receive-beyond :
      (c : ChannelCache (RxPdo V)) (pdo : RxPdo V)
      → sample ≤ 2147483647
      → pdo.index ≡ pos sample
      → max_ecat_ids ≤ sample
      → receive c pdo ≡ c
  unfolding receive
  receive-beyond c pdo h e n = rw (e, to_uint32_pos sample (omega arith)) (ground (arith, n))

  receive_all-beyond :
      (c : ChannelCache (RxPdo V)) (pdos : List (RxPdo V))
      → sample ≤ 2147483647
      → All (λ (pdo : RxPdo V). pdo.index ≡ pos sample) pdos
      → max_ecat_ids ≤ sample
      → receive_all c pdos ≡ c
  unfolding receive_all
  receive_all-beyond c [] h es n = refl
  receive_all-beyond c (pdo ∷ pdos) h es n =
      rw (receive-beyond c pdo h es.0 n) (receive_all-beyond c pdos h es.1 n)

-- Of what the producer pushes in a cycle whose number nobody has asked for as an ID, the discovery finds
-- no device; and from cycle 256 up to the last below 2^31 no PDO is stored in a cache of the publishers.
-- The boards' IDs are of no account.
pub produce-unseen :
    {D V : Type 0} (r : Reals D V) (s : Clocked D) (clock : ℕ → ℕ) (slaves : List Slave)
    (ecat_ids : List ℕ) (channel : ChannelRx) (device : DeviceTypeRx) (ecat_map : EcatMap)
    (c : ChannelCache (RxPdo V))
    → s.sample_count ≤ 2147483647
    → contains ecat_ids s.sample_count ≡ false
    → max_ecat_ids ≤ s.sample_count
    → (observe_all ecat_ids channel device ecat_map (pdos_of r (produce r s clock slaves))
        ≡ ecat_map)
      × (receive_all c (pdos_of r (produce r s clock slaves)) ≡ c)
produce-unseen r s clock slaves ecat_ids channel device ecat_map c h n m =
    let indices = produce-index r s clock slaves h in
    (
      observe_all-unasked s.sample_count ecat_ids channel device ecat_map _ h indices n,
      receive_all-beyond s.sample_count c _ h indices m,
    )
