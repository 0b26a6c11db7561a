-- ===== src/ZenohPublishers/Topics.antt =====
-- The topics that `ZenohAdapterPublishers::init` in src/zenoh_adapter_publishers.cpp of
-- plugins/advrf_zenoh_plugin publishes, beside those of the DDS plugins' src/dds_adapter_publishers.cpp.
use mathlib.Core.List.{Perm}
use mathlib.Core.List.Perm
use ecat_middleware_advr.Prelude.{
  ℕ, ◌≡◌, refl, subst, true, inl, inr, Bool-cases, List, [], ◌∷◌, ◌++◌, append-nil, Option-cases,
  Text, arith,
}
use ecat_middleware_advr.Channel.{ChannelRx}
use ecat_middleware_advr.Config.Topics.{Topic, TopicsState}
use ecat_middleware_advr.Discover.{EcatMap}
use ecat_middleware_advr.DdsAdapter.{
  Registration, ids_on, SingleKind, single_channel, single_registration, single_publisher,
  single_publishers, single_kinds, init_publishers,
}
use ecat_middleware_advr.Pdo.Ids.{find_name}
use ecat_middleware_advr.ZenohState.{Ros2MessageType}
use ecat_middleware_advr.ZenohPublishers.{
  TopicRegistration, Registered, filter_ids, register_topic, both, register_devices,
  register_joints, init,
}
use ecat_middleware_advr.ZenohPublishers.Joints.{
  Publishes, InStep, HasKeys, accepted, InStep-append, filter_ids_lem, valves_first,
  valves_first-perm, register_joints-InStep,
}

single-InStep :
    (names : List (ℕ × Text)) (kind : SingleKind) (ids : List ℕ) (make_key : Text → TopicsState)
    (t : Ros2MessageType)
    → ((id : ℕ) (name : Text)
        → Publishes
            (record {
              channels = single_channel kind ∷ [];
              ids = id ∷ [];
              key = Topic.rx (make_key name);
              ros2_type = t;
            })
            (single_registration kind (id ∷ []) name))
    → (single_publisher names kind ids).1 ≡ true
    → InStep
        (register_devices accepted names (single_channel kind) make_key t ids).0
        (single_publisher names kind ids).0
      × ((register_devices accepted names (single_channel kind) make_key t ids).1 ≡ true)
unfolding single_publisher register_devices
single-InStep names kind [] make_key t h e = (tt, refl)
single-InStep names kind (id ∷ []) make_key t h e = elim (Option-cases (find_name names id)) [
  | inl missing ↦ ground arith
  | inr (name, found) ↦ rw (found, single_publisher) ((h id name, tt), refl)
]
single-InStep names kind (id ∷ other ∷ rest) make_key t h e = cc

-- The Zenoh registrations for a kind of which DDS supports one device.
abbrev zenoh_single : List (ℕ × Text) → EcatMap → SingleKind → Registered
zenoh_single names ecat_map SingleKind.imu =
    register_devices accepted names ChannelRx.imu TopicsState.imu Ros2MessageType.imu
      (filter_ids ecat_map ChannelRx.imu)
zenoh_single names ecat_map SingleKind.power_board =
    register_devices accepted names ChannelRx.power_board TopicsState.power_board
      Ros2MessageType.power_board (filter_ids ecat_map ChannelRx.power_board)
zenoh_single names ecat_map SingleKind.pump =
    register_devices accepted names ChannelRx.pump TopicsState.pump Ros2MessageType.pump
      (filter_ids ecat_map ChannelRx.pump)
zenoh_single names ecat_map SingleKind.force_torque =
    register_devices accepted names ChannelRx.force_torque TopicsState.force_torque
      Ros2MessageType.force_torque (filter_ids ecat_map ChannelRx.force_torque)

zenoh_single-InStep :
    (names : List (ℕ × Text)) (ecat_map : EcatMap) (kind : SingleKind)
    → HasKeys ecat_map
    → (single_publisher names kind (ids_on ecat_map (single_channel kind))).1 ≡ true
    → InStep
        (zenoh_single names ecat_map kind).0
        (single_publisher names kind (ids_on ecat_map (single_channel kind))).0
      × ((zenoh_single names ecat_map kind).1 ≡ true)
unfolding single_channel single_registration
zenoh_single-InStep names ecat_map SingleKind.imu h e =
    rw (filter_ids_lem ecat_map ChannelRx.imu h) (
      single-InStep names SingleKind.imu _ TopicsState.imu Ros2MessageType.imu
        (λ id name. (refl, refl, refl, λ i. refl)) e)
zenoh_single-InStep names ecat_map SingleKind.power_board h e =
    rw (filter_ids_lem ecat_map ChannelRx.power_board h) (
      single-InStep names SingleKind.power_board _ TopicsState.power_board
        Ros2MessageType.power_board (λ id name. (refl, refl, refl, λ i. refl)) e)
zenoh_single-InStep names ecat_map SingleKind.pump h e =
    rw (filter_ids_lem ecat_map ChannelRx.pump h) (
      single-InStep names SingleKind.pump _ TopicsState.pump Ros2MessageType.pump
        (λ id name. (refl, refl, refl, λ i. refl)) e)
zenoh_single-InStep names ecat_map SingleKind.force_torque h e =
    rw (filter_ids_lem ecat_map ChannelRx.force_torque h) (
      single-InStep names SingleKind.force_torque _ TopicsState.force_torque
        Ros2MessageType.force_torque (λ id name. (refl, refl, refl, λ i. refl)) e)

abbrev zenoh_singles : List (ℕ × Text) → EcatMap → List SingleKind → Registered
zenoh_singles names ecat_map [] = ([], true)
zenoh_singles names ecat_map (kind ∷ kinds) =
    both accepted (zenoh_single names ecat_map kind) (zenoh_singles names ecat_map kinds)

zenoh_singles-InStep :
    (names : List (ℕ × Text)) (ecat_map : EcatMap) (kinds : List SingleKind)
    → HasKeys ecat_map
    → (single_publishers names ecat_map kinds).1 ≡ true
    → InStep (zenoh_singles names ecat_map kinds).0 (single_publishers names ecat_map kinds).0
      × ((zenoh_singles names ecat_map kinds).1 ≡ true)
unfolding single_publishers
zenoh_singles-InStep names ecat_map [] h e = (tt, refl)
zenoh_singles-InStep names ecat_map (kind ∷ kinds) h e =
    elim (Bool-cases (single_publisher names kind (ids_on ecat_map (single_channel kind))).1) [
      | inl done ↦
          let (here, registered) = zenoh_single-InStep names ecat_map kind h done in
          let (later, others) = zenoh_singles-InStep names ecat_map kinds h (ground arith) in
          rw done (InStep-append _ _ _ _ here later, ground arith)
      | inr failed ↦ absurd (ground arith)
    ]

register_joints-succeeds : (ecat_map : EcatMap) → (register_joints accepted ecat_map).1 ≡ true
unfolding register_joints register_topic
register_joints-succeeds ecat_map = ground arith

-- If the DDS plugins accept the discovered devices, Zenoh does so too, as far as it can declare its
-- topics. It then publishes the same topics as they do, but for their order: each with the same message,
-- from the same channels and for the same devices.
pub init-InStep :
    (names : List (ℕ × Text)) (ecat_map : EcatMap)
    → HasKeys ecat_map
    → (init_publishers names ecat_map).1 ≡ true
    → ((init accepted names ecat_map).1 ≡ true)
      × ((ds : List Registration) × Perm ds (init_publishers names ecat_map).0
          × InStep (init accepted names ecat_map).0 ds)
unfolding init_publishers init
init-InStep names ecat_map h e =
    let (singles, registered) = zenoh_singles-InStep names ecat_map single_kinds h e in
    (
      ground (arith, register_joints-succeeds ecat_map, registered),
      (
        valves_first ecat_map ++ (single_publishers names ecat_map single_kinds).0,
        Perm.append_right _ (valves_first-perm ecat_map),
        InStep-append _ _ _ _ (register_joints-InStep ecat_map h)
            (subst (no_more ecat_map) (append-nil (last ecat_map)) singles),
      ),
    )
  where
    last : EcatMap → List TopicRegistration
    last ecat_map = (zenoh_single names ecat_map SingleKind.force_torque).0

    no_more : EcatMap → List TopicRegistration → Type 0
    no_more ecat_map l =
        InStep
          ((zenoh_single names ecat_map SingleKind.imu).0
            ++ ((zenoh_single names ecat_map SingleKind.power_board).0
                ++ ((zenoh_single names ecat_map SingleKind.pump).0 ++ l)))
          (single_publishers names ecat_map single_kinds).0
