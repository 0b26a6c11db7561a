-- ===== src/ZenohPublishers/Joints.antt =====
-- The topics that `ZenohAdapterPublishers::init` in src/zenoh_adapter_publishers.cpp of
-- plugins/advrf_zenoh_plugin publishes for all joints, the motors, the valves and the grippers, beside those of
-- the DDS plugins.
use mathlib.Core.List.{Perm, perm_append_comm}
use mathlib.Core.List.Perm
use ecat_middleware_advr.Prelude.{
  ℕ, ◌≡◌, refl, ◌∙◌, Bool, true, ◌&&◌, inl, inr, Bool-cases, List, [], ◌∷◌, ◌++◌, arith, is_empty,
  contains, contains-append, All,
}
use ecat_middleware_advr.Channel.{ChannelRx}
use ecat_middleware_advr.Config.Topics.{Topic, TopicsState}
use ecat_middleware_advr.Discover.{EcatMetadata, EcatMap}
use ecat_middleware_advr.DdsAdapter.{
  PublisherKind, Registration, ids_on, when_any, joint_ids, joint_publishers,
}
use ecat_middleware_advr.ZenohState.{Ros2MessageType}
use ecat_middleware_advr.ZenohPublishers.{
  TopicRegistration, filter_ids, register_topic, register_joints,
}

-- The message that a DDS publisher writes, as Zenoh names it.
abbrev pub message_type : PublisherKind → Ros2MessageType
message_type PublisherKind.joint_state = Ros2MessageType.joint_state
message_type PublisherKind.motors = Ros2MessageType.motor
message_type PublisherKind.gripper = Ros2MessageType.gripper
message_type PublisherKind.valve = Ros2MessageType.valve
message_type PublisherKind.imu = Ros2MessageType.imu
message_type PublisherKind.power_board = Ros2MessageType.power_board
message_type PublisherKind.pump = Ros2MessageType.pump
message_type PublisherKind.force_torque = Ros2MessageType.force_torque

-- The same topic with the same message, from the same devices of the same channels.
abbrev pub Publishes : TopicRegistration → Registration → Type 0
Publishes z d =
    (z.key ≡ d.topic)
    × (z.ros2_type ≡ message_type d.kind)
    × (z.channels ≡ d.channels)
    × ((id : ℕ) → contains z.ids id ≡ contains d.ids id)

-- One after the other, in the same order.
abbrev pub InStep : List TopicRegistration → List Registration → Type 0
InStep [] [] = Unit
InStep (z ∷ zs) (d ∷ ds) = Publishes z d × InStep zs ds
InStep [] (d ∷ ds) = ⊥
InStep (z ∷ zs) [] = ⊥

-- Each device stands under its own ID.
abbrev pub HasKeys : EcatMap → Type 0
HasKeys = All (λ (entry : ℕ × EcatMetadata). entry.0 ≡ entry.1.ecat_id)

abbrev pub accepted : Topic → Bool
accepted topic = true

pub InStep-append :
    (zs zs' : List TopicRegistration) (ds ds' : List Registration)
    → InStep zs ds
    → InStep zs' ds'
    → InStep (zs ++ zs') (ds ++ ds')
InStep-append [] zs' [] ds' h k = k
InStep-append (z ∷ zs) zs' (d ∷ ds) ds' h k = (h.0, InStep-append zs zs' ds ds' h.1 k)
InStep-append [] zs' (d ∷ ds) ds' h k = absurd h
InStep-append (z ∷ zs) zs' [] ds' h k = absurd h

pub filter_ids_lem :
    (ecat_map : EcatMap) (channel : ChannelRx)
    → HasKeys ecat_map
    → filter_ids ecat_map channel ≡ ids_on ecat_map channel
unfolding filter_ids ids_on
filter_ids_lem [] channel h = refl
filter_ids_lem ((id, device) ∷ rest) channel h = ground (arith, filter_ids_lem rest channel)

register_topic-InStep :
    (z : TopicRegistration) (d : Registration)
    → is_empty z.ids ≡ is_empty d.ids
    → Publishes z d
    → InStep (register_topic accepted z).0 (when_any d)
unfolding register_topic when_any
register_topic-InStep z d e h = elim (Bool-cases (is_empty d.ids)) [
  | inl empty ↦ rw (e ∙ empty, empty) tt
  | inr full ↦ rw (e ∙ full, full) (h, tt)
]

is_empty-append : (xs ys : List ℕ) → is_empty (xs ++ ys) ≡ (is_empty xs && is_empty ys)
is_empty-append [] ys = refl
is_empty-append (x ∷ xs) ys = refl

-- The publishers of the DDS plugins for joints, motors, grippers and valves.
abbrev dds_joints : EcatMap → Registration
dds_joints ecat_map = record {
  kind = PublisherKind.joint_state;
  channels = ChannelRx.motor ∷ ChannelRx.gripper ∷ ChannelRx.valve ∷ [];
  ids = joint_ids ecat_map;
  topic = Topic.rx TopicsState.joint_state;
}

abbrev dds_motors : EcatMap → Registration
dds_motors ecat_map = record {
  kind = PublisherKind.motors;
  channels = ChannelRx.motor ∷ [];
  ids = ids_on ecat_map ChannelRx.motor;
  topic = Topic.rx TopicsState.motor;
}

abbrev dds_grippers : EcatMap → Registration
dds_grippers ecat_map = record {
  kind = PublisherKind.gripper;
  channels = ChannelRx.gripper ∷ [];
  ids = ids_on ecat_map ChannelRx.gripper;
  topic = Topic.rx TopicsState.gripper;
}

abbrev dds_valves : EcatMap → Registration
dds_valves ecat_map = record {
  kind = PublisherKind.valve;
  channels = ChannelRx.valve ∷ [];
  ids = ids_on ecat_map ChannelRx.valve;
  topic = Topic.rx TopicsState.valve;
}

-- With the valves before the grippers, as Zenoh has them.
abbrev pub valves_first : EcatMap → List Registration
valves_first ecat_map =
    when_any (dds_joints ecat_map)
    ++ (when_any (dds_motors ecat_map)
        ++ (when_any (dds_valves ecat_map) ++ when_any (dds_grippers ecat_map)))

pub valves_first-perm :
    (ecat_map : EcatMap) → Perm (valves_first ecat_map) (joint_publishers ecat_map)
unfolding joint_publishers
valves_first-perm ecat_map = Perm.append_left _ (
    Perm.append_left _
      (perm_append_comm (when_any (dds_valves ecat_map)) (when_any (dds_grippers ecat_map))))

joint_ids-contains :
    (ms vs gs : List ℕ) (id : ℕ) → contains ((ms ++ vs) ++ gs) id ≡ contains (ms ++ (gs ++ vs)) id
joint_ids-contains ms vs gs id = ground (
  arith,
  contains-append (ms ++ vs) gs id,
  contains-append ms vs id,
  contains-append ms (gs ++ vs) id,
  contains-append gs vs id,
)

joint_ids-is_empty : (ms vs gs : List ℕ) → is_empty ((ms ++ vs) ++ gs) ≡ is_empty (ms ++ (gs ++ vs))
joint_ids-is_empty ms vs gs = ground (
  arith,
  is_empty-append (ms ++ vs) gs,
  is_empty-append ms vs,
  is_empty-append ms (gs ++ vs),
  is_empty-append gs vs,
)

pub register_joints-InStep :
    (ecat_map : EcatMap)
    → HasKeys ecat_map
    → InStep (register_joints accepted ecat_map).0 (valves_first ecat_map)
unfolding register_joints joint_ids
register_joints-InStep ecat_map h =
    rw
      (
        filter_ids_lem ecat_map ChannelRx.motor h,
        filter_ids_lem ecat_map ChannelRx.valve h,
        filter_ids_lem ecat_map ChannelRx.gripper h,
      )
      (InStep-append _ _ (when_any (dds_joints ecat_map)) _
        (register_topic-InStep _ (dds_joints ecat_map)
          (joint_ids-is_empty (ids_on ecat_map ChannelRx.motor) (ids_on ecat_map ChannelRx.valve)
            (ids_on ecat_map ChannelRx.gripper))
          (
            refl,
            refl,
            refl,
            λ id.
                joint_ids-contains (ids_on ecat_map ChannelRx.motor)
                  (ids_on ecat_map ChannelRx.valve) (ids_on ecat_map ChannelRx.gripper) id,
          ))
        (InStep-append _ _ (when_any (dds_motors ecat_map)) _
          (register_topic-InStep _ (dds_motors ecat_map) refl (refl, refl, refl, λ id. refl))
          (InStep-append _ _ (when_any (dds_valves ecat_map)) _
            (register_topic-InStep _ (dds_valves ecat_map) refl (refl, refl, refl, λ id. refl))
            (register_topic-InStep _ (dds_grippers ecat_map) refl (refl, refl, refl, λ id. refl)))))
