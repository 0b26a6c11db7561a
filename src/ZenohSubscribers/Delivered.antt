-- ===== src/ZenohSubscribers/Delivered.antt =====
-- Which commands src/zenoh_adapter_subscribers.cpp of plugins/advrf_zenoh_plugin hands to a transmit
-- queue, and which it drops.
use ecat_middleware_advr.Prelude.{
  ℕ, ◌-◌, ltb→lt, ◌≡◌, refl, ap, ◌∙◌, Bool, true, false, inl, inr, Bool-cases, List, [], ◌∷◌, ◌++◌,
  Option, some, arith, if◌then◌else◌, if_pos, ltb, length, take, All, is_neg, to_uint32, last_or,
  All-weaken,
}
use ecat_middleware_advr.Channel.{DeviceTypeTx, device_for_tx}
use ecat_middleware_advr.Pdo.{PdoMessage}
use ecat_middleware_advr.Pdo.Check.{PdoType-discrete}
use ecat_middleware_advr.Subscribers.Bounded.{
  Handed, bounded, take-room, take-full, take-end, push_into-bounded,
}
use ecat_middleware_advr.ZenohCommands.{Cdr, deserialize_cycle}
use ecat_middleware_advr.ZenohCommands.Messages.{TxPdo}
use ecat_middleware_advr.ZenohCommands.Typed.{command_tx, deserialize_cycle-IsOf}
use ecat_middleware_advr.ZenohSubscriber.{
  new_subscriber, on_samples, run_callback, spin_once, at_least_one,
}
use ecat_middleware_advr.ZenohSubscriber.Newest.{decoded, newest, spin_once-newest}
use ecat_middleware_advr.ZenohSubscribers.{
  CommandTopic, topics, enqueue, on_pdo, enqueue_batch, on_commands, tx_pdo_message,
}

-- A topic whose CDR messages become PDOs of the type that it expects, for a channel with that device.
abbrev pub Agrees : DeviceTypeTx → CommandTopic → Type 0
Agrees device topic =
    (command_tx topic.cdr_type ≡ topic.expected_type) × (device_for_tx topic.channel ≡ some device)

-- Every topic that is subscribed to is one.
pub topics-Agrees : All (λ topic. (device : DeviceTypeTx) × Agrees device topic) topics
unfolding topics device_for_tx
topics-Agrees = (
  (DeviceTypeTx.motor, (refl, refl)),
  (
    (DeviceTypeTx.motor, (refl, refl)),
    (
      (DeviceTypeTx.valve, (refl, refl)),
      ((DeviceTypeTx.gripper, (refl, refl)), ((DeviceTypeTx.pump, (refl, refl)), tt)),
    ),
  ),
)

module _ {V : Type 0} where
  -- The commands up to the first with a negative ID, as they stand in the queue.
  abbrev pub up_to_negative : DeviceTypeTx → List (TxPdo V) → List (Handed (TxPdo V))
  up_to_negative device [] = []
  up_to_negative device (pdo ∷ pdos) =
      let rest = up_to_negative device pdos in
      if is_neg pdo.index then [] else (device, to_uint32 pdo.index, pdo) ∷ rest

  module _ (capacity : ℕ) (device : DeviceTypeTx) (topic : CommandTopic)
      (agrees : Agrees device topic) where
    enqueue-bounded :
        (pdo : TxPdo V) (queue : List (Handed (TxPdo V)))
        → pdo.type ≡ topic.expected_type
        → enqueue (bounded capacity) true topic pdo queue ≡ (
            if is_neg pdo.index
            then (queue, false)
            else bounded capacity device (to_uint32 pdo.index) pdo queue)
    unfolding enqueue
    enqueue-bounded pdo queue h =
        rw (if_pos (PdoType-discrete pdo.type topic.expected_type) h)
          (push_into-bounded capacity device topic.channel pdo queue agrees.1 refl refl)

    enqueue_batch-bounded :
        (pdos : List (TxPdo V)) (queue : List (Handed (TxPdo V)))
        → All (λ (pdo : TxPdo V). pdo.type ≡ topic.expected_type) pdos
        → enqueue_batch (bounded capacity) true topic pdos queue
          ≡ queue ++ take (capacity - length queue) (up_to_negative device pdos)
    unfolding enqueue_batch
    enqueue_batch-bounded [] queue h = take-end capacity queue
    enqueue_batch-bounded (pdo ∷ pdos) queue h = elim (Bool-cases (is_neg pdo.index)) [
      | inl e ↦ rw (enqueue-bounded pdo queue h.0, e) (take-end capacity queue)
      | inr e ↦ elim (Bool-cases (ltb (length queue) capacity)) [
        | inl room ↦
            rw (enqueue-bounded pdo queue h.0, e, room)
              (enqueue_batch-bounded pdos (queue ++ (device, to_uint32 pdo.index, pdo) ∷ []) h.1
                ∙ take-room capacity queue _ (up_to_negative device pdos) (ltb→lt _ _ room))
        | inr full ↦
            rw (enqueue-bounded pdo queue h.0, e, full) (take-full capacity queue _ (ground arith))
      ]
    ]

  -- A message in CDR on a topic: its commands up to the first with a negative ID go to the queue of the
  -- topic's device, in order and each under its ID, as many as fit; all others are dropped. None is
  -- dropped for its type.
  pub on_commands_lem :
      {Payload : Type 0} ⦃cdr : Cdr Payload V⦄ (capacity : ℕ) (device : DeviceTypeTx)
      (topic : CommandTopic) (payload : Payload) (queue : List (Handed (TxPdo V)))
      → Agrees device topic
      → (on_commands
          (bounded capacity)
          true
          topic
          (deserialize_cycle {V = V} topic.cdr_type payload).0
          queue).0
        ≡ queue
          ++ take
              (capacity - length queue)
              (up_to_negative device (deserialize_cycle {V = V} topic.cdr_type payload).0)
  unfolding on_commands
  on_commands_lem capacity device topic payload queue agrees =
      enqueue_batch-bounded capacity device topic agrees
        (deserialize_cycle topic.cdr_type payload).0 queue
        (All-weaken _ _ _ (λ pdo is. is.0 ∙ agrees.0)
          (deserialize_cycle-IsOf V topic.cdr_type payload).0)

module _ {Pdo Queues : Type 0} ⦃m : PdoMessage Pdo⦄
    (put : DeviceTypeTx → ℕ → Pdo → Queues → Queues × Bool) (is_ok : Bool)
    (topic : CommandTopic) where
  -- The queues after the last of some commands alone.
  abbrev pub last_enqueued : List Pdo → Queues → Queues
  last_enqueued [] queues = queues
  last_enqueued (pdo ∷ pdos) queues = (enqueue put is_ok topic (last_or pdo pdos) queues).0

  newest-one : (x y : Pdo) (xs : List Pdo) → newest 1 (x ∷ y ∷ xs) ≡ newest 1 (y ∷ xs)
  newest-one x y xs = ground arith

  run_callback-last :
      (pdos : List Pdo) (queues : Queues)
      → run_callback (some (on_pdo put is_ok topic)) (newest 1 pdos) queues
        ≡ last_enqueued pdos queues
  unfolding run_callback on_pdo
  run_callback-last [] queues = refl
  run_callback-last (pdo ∷ []) queues = refl
  run_callback-last (pdo ∷ next ∷ pdos) queues =
      rw (newest-one pdo next pdos) (run_callback-last (next ∷ pdos) queues)

  -- In Protobuf, where a message is one command and the subscriber has its default depth of 1: of the
  -- commands that arrive on a topic between two calls of `spin_once` only the last is looked at, also if
  -- they are for different devices.
  pub on_pdo-last :
      (samples : List (Option Pdo)) (queues : Queues)
      → (spin_once (some (on_pdo put is_ok topic)) (on_samples (new_subscriber 1) samples) queues).1
        ≡ last_enqueued (decoded samples) queues
  unfolding new_subscriber at_least_one
  on_pdo-last samples queues =
      ap (λ r. r.1)
        (spin_once-newest (on_pdo put is_ok topic) queues (new_subscriber 1) samples (omega arith)
          (omega arith) refl)
      ∙ run_callback-last (decoded samples) queues
