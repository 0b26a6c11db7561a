-- ===== src/DdsSubscribers/Forwarded.antt =====
-- Which motor commands src/dds_adapter_subscribers.cpp of the DDS plugins hands to the transmit queue.
use ecat_middleware_advr.Prelude.{
  ℕ, ℤ, ◌-◌, ltb→lt, ◌≡◌, refl, sym, ap, subst, ◌∙◌, Bool, true, false, ◌&&◌, not, inl, inr,
  Bool-cases, List, [], ◌∷◌, ◌++◌, Option, none, some, arith, if◌then◌else◌, ltb, length, take,
  is_neg, to_uint32,
}
use ecat_middleware_advr.Channel.{ChannelTx, DeviceTypeTx, device_for_tx}
use ecat_middleware_advr.Pdo.{PdoType}
use ecat_middleware_advr.Discover.{EcatMap, resolve_type}
use ecat_middleware_advr.Converter.Messages.{MotorTxPdoMsg}
use ecat_middleware_advr.Converter.MotorTx.{EcSlavePdo, cleared}
use ecat_middleware_advr.Converter.MotorTx.Routed.{IsRouted, tx_type, motor_pdo_from_dds-IsRouted}
use ecat_middleware_advr.Subscribers.{push_into}
use ecat_middleware_advr.Subscribers.Bounded.{
  Handed, bounded, take-room, take-full, take-end, take-resume, push_into-bounded,
}
use ecat_middleware_advr.DdsSubscribers.{
  DdsSubscriber, motor_subscriber, motor_pdo, motor_pdos, push_all, take_samples, init_cyclone,
  init_fast, spin_once, is_unspecified, ec_slave_message,
}

abbrev pub is_some : Option PdoType → Bool
is_some none = false
is_some (some t) = true

-- The commands of the samples that hold data, in order.
abbrev pub all_commands :
    {V : Type 0} → List (Option (List (MotorTxPdoMsg V))) → List (MotorTxPdoMsg V)
all_commands [] = []
all_commands (none ∷ samples) = all_commands samples
all_commands (some elements ∷ samples) = elements ++ all_commands samples

routed_fields :
    {V : Type 0} (element : MotorTxPdoMsg V) (o : Option PdoType) (pdo : EcSlavePdo V)
    → IsRouted element o pdo
    → (is_unspecified pdo.type ≡ not (is_some o))
      × (is_some o ≡ true → pdo.index ≡ some element.ecat_id)
routed_fields element none pdo h = (rw h refl, λ e. cc)
routed_fields element (some PdoType.tx_motor) pdo h = (rw h.0 refl, λ e. h.1)
routed_fields element (some PdoType.tx_xt_motor) pdo h = (rw h.0 refl, λ e. h.1)
routed_fields element (some PdoType.tx_cia402) pdo h = (rw h.0 refl, λ e. h.1)
routed_fields element (some _) pdo h = absurd h

module _ {V : Type 0} (ecat_map : EcatMap) where
  -- A command for a motor that was discovered: its ID is not negative, and the type found for it is that
  -- of a motor.
  abbrev pub is_for_motor : MotorTxPdoMsg V → Bool
  is_for_motor element =
      not (is_neg element.ecat_id)
      && is_some (tx_type (resolve_type ecat_map (to_uint32 element.ecat_id)))

  -- The commands for motors, as they stand in the transmit queue.
  abbrev pub for_motors : List (MotorTxPdoMsg V) → List (Handed (EcSlavePdo V))
  for_motors [] = []
  for_motors (element ∷ elements) =
      let rest = for_motors elements in
      if is_for_motor element
      then (DeviceTypeTx.motor, to_uint32 element.ecat_id, motor_pdo ecat_map element) ∷ rest
      else rest

  routed :
      (element : MotorTxPdoMsg V)
      → IsRouted element
          (if is_neg element.ecat_id
            then none
            else tx_type (resolve_type ecat_map (to_uint32 element.ecat_id)))
          (motor_pdo ecat_map element)
  unfolding motor_pdo
  routed element =
      motor_pdo_from_dds-IsRouted element (resolve_type ecat_map (to_uint32 element.ecat_id))
        cleared

  motor_pdo-fields :
      (element : MotorTxPdoMsg V)
      → (is_unspecified (motor_pdo ecat_map element).type ≡ not (is_for_motor element))
        × (is_for_motor element ≡ true → (motor_pdo ecat_map element).index ≡ some element.ecat_id)
  motor_pdo-fields element = elim (Bool-cases (is_neg element.ecat_id)) [
    | inl e ↦ rw e (
        routed_fields element none _ (
          subst
            (λ b.
              IsRouted element
                (if b then none else tx_type (resolve_type ecat_map (to_uint32 element.ecat_id)))
                (motor_pdo ecat_map element))
            e (routed element)))
    | inr e ↦ rw e (
        routed_fields element _ _ (
          subst
            (λ b.
              IsRouted element
                (if b then none else tx_type (resolve_type ecat_map (to_uint32 element.ecat_id)))
                (motor_pdo ecat_map element))
            e (routed element)))
  ]

  motor_pushed :
      (capacity : ℕ) (pdo : EcSlavePdo V) (id : ℤ) (queue : List (Handed (EcSlavePdo V)))
      → pdo.index ≡ some id
      → is_neg id ≡ false
      → push_into (bounded capacity) true ChannelTx.motor pdo queue
        ≡ bounded capacity DeviceTypeTx.motor (to_uint32 id) pdo queue
  unfolding device_for_tx
  motor_pushed capacity pdo id queue e h =
      push_into-bounded capacity DeviceTypeTx.motor ChannelTx.motor pdo queue refl (rw e refl)
        (rw e refl)
      ∙ rw (e, h) refl

  module _ (capacity : ℕ) where
    push_all-bounded :
        (elements : List (MotorTxPdoMsg V)) (queue : List (Handed (EcSlavePdo V)))
        → push_all (bounded capacity) true ChannelTx.motor (motor_pdos ecat_map elements) queue
          ≡ queue ++ take (capacity - length queue) (for_motors elements)
    unfolding push_all motor_pdos
    push_all-bounded [] queue = take-end capacity queue
    push_all-bounded (element ∷ elements) queue =
        let (dropped, index) = motor_pdo-fields element in
        elim (Bool-cases (is_for_motor element)) [
          | inl e ↦
              let into =
                motor_pushed capacity (motor_pdo ecat_map element) element.ecat_id queue (index e)
                  (ground arith) in
              elim (Bool-cases (ltb (length queue) capacity)) [
                | inl room ↦
                    rw (e, dropped ∙ ap not e, into, room)
                      (push_all-bounded elements (
                          queue
                          ++ (
                            DeviceTypeTx.motor,
                            to_uint32 element.ecat_id,
                            motor_pdo ecat_map element,
                          )
                            ∷ [])
                        ∙ take-room capacity queue _ (for_motors elements) (ltb→lt _ _ room))
                | inr full ↦
                    rw (e, dropped ∙ ap not e, into, full)
                      (push_all-bounded elements queue
                        ∙ sym (take-full capacity queue (for_motors elements) (ground arith))
                        ∙ take-full capacity queue _ (ground arith))
              ]
          | inr e ↦ rw (e, dropped ∙ ap not e) (push_all-bounded elements queue)
        ]

    for_motors-append :
        (xs ys : List (MotorTxPdoMsg V)) → for_motors (xs ++ ys) ≡ for_motors xs ++ for_motors ys
    for_motors-append [] ys = refl
    for_motors-append (x ∷ xs) ys = ground (arith, for_motors-append xs ys)

    take_samples-bounded :
        (samples : List (Option (List (MotorTxPdoMsg V)))) (queue : List (Handed (EcSlavePdo V)))
        → take_samples (bounded capacity) true ChannelTx.motor (motor_pdos ecat_map) samples queue
          ≡ queue ++ take (capacity - length queue) (for_motors (all_commands samples))
    unfolding take_samples
    take_samples-bounded [] queue = take-end capacity queue
    take_samples-bounded (none ∷ samples) queue = take_samples-bounded samples queue
    take_samples-bounded (some elements ∷ samples) queue =
        rw (push_all-bounded elements queue, for_motors-append elements (all_commands samples))
          (take_samples-bounded samples
              (queue ++ take (capacity - length queue) (for_motors elements))
            ∙ take-resume capacity queue (for_motors elements) (for_motors (all_commands samples)))

  -- A cycle of the adapter, in both plugins, when its reader was created: of all commands in the reader,
  -- those for discovered motors go to the motors' queue, in order and each under its ID, as many as fit.
  -- A command with a negative ID or for another device stops none of the others.
  pub spin_once_lem :
      (capacity : ℕ) (reader : DdsSubscriber → List (Option (List (MotorTxPdoMsg V))))
      (queue : List (Handed (EcSlavePdo V)))
      → (spin_once ecat_map (bounded capacity) true reader (init_cyclone true []).0 queue
          ≡ queue
            ++ take (capacity - length queue) (for_motors (all_commands (reader motor_subscriber))))
        × (spin_once ecat_map (bounded capacity) true reader (init_fast true []).0 queue
            ≡ queue
              ++ take
                  (capacity - length queue)
                  (for_motors (all_commands (reader motor_subscriber))))
  unfolding spin_once init_cyclone init_fast
  spin_once_lem capacity reader queue = (
    take_samples-bounded capacity (reader motor_subscriber) queue,
    take_samples-bounded capacity (reader motor_subscriber) queue,
  )

  -- Where the reader could not be created, `init` of Cyclone DDS returns false and that of Fast DDS true,
  -- and in both the adapter then forwards nothing, whatever is sent.
  pub init_fast_silent :
      {Queues : Type 0} (put : DeviceTypeTx → ℕ → EcSlavePdo V → Queues → Queues × Bool)
      (is_ok : Bool) (reader : DdsSubscriber → List (Option (List (MotorTxPdoMsg V))))
      (queues : Queues)
      → ((init_cyclone false []).1 ≡ false)
        × ((init_fast false []).1 ≡ true)
        × (spin_once ecat_map put is_ok reader (init_cyclone false []).0 queues ≡ queues)
        × (spin_once ecat_map put is_ok reader (init_fast false []).0 queues ≡ queues)
  unfolding spin_once init_cyclone init_fast
  init_fast_silent put is_ok reader queues = (refl, refl, refl, refl)
