-- ===== src/ZenohCommands/Typed.antt =====
-- The transmit PDOs that the deserialisers of src/ros2cdr.cpp in plugins/advrf_zenoh_plugin make of a
-- payload.
use ecat_middleware_advr.Prelude.{
  ℤ, ◌≡◌, refl, Bool, not, is_empty, List, [], ◌∷◌, map, Option, none, some, All,
}
use ecat_middleware_advr.Pdo.{PdoType}
use ecat_middleware_advr.Converter.Messages.{MotorTxPdoMsg}
use ecat_middleware_advr.ZenohCommands.{
  Ros2CommandType, Cdr, deserialize_vector, deserialize_single, joint_tx, motor_tx, motor_xt_tx,
  valve_tx, gripper_tx, pump_tx, power_board_tx, force_torque_tx, deserialize_cycle,
}
use ecat_middleware_advr.ZenohCommands.Messages.{
  ValveTxPdoMsg, GripperTxPdoMsg, PumpTxPdoMsg, PowerBoardTxPdoMsg, ForceTorqueTxPdoMsg, TxPdo,
  TxPayload,
}

-- The discriminator of a command's PDOs.
abbrev pub command_tx : Ros2CommandType → PdoType
command_tx Ros2CommandType.joint = PdoType.tx_cia402
command_tx Ros2CommandType.motor = PdoType.tx_motor
command_tx Ros2CommandType.motor_xt = PdoType.tx_xt_motor
command_tx Ros2CommandType.valve = PdoType.tx_hyq_knee
command_tx Ros2CommandType.gripper = PdoType.tx_gripper
command_tx Ros2CommandType.pump = PdoType.tx_hyq_hpu
command_tx Ros2CommandType.power_board = PdoType.tx_pow_f28m36
command_tx Ros2CommandType.force_torque = PdoType.tx_ft6

-- The discriminator that belongs to a payload.
abbrev pub payload_tx : {V : Type 0} → TxPayload V → PdoType
payload_tx (TxPayload.cia402 t) = PdoType.tx_cia402
payload_tx (TxPayload.motor t) = PdoType.tx_motor
payload_tx (TxPayload.motor_xt t) = PdoType.tx_xt_motor
payload_tx (TxPayload.hyq_knee t) = PdoType.tx_hyq_knee
payload_tx (TxPayload.gripper t) = PdoType.tx_gripper
payload_tx (TxPayload.hyq_hpu t) = PdoType.tx_hyq_hpu
payload_tx (TxPayload.pow_f28m36 t) = PdoType.tx_pow_f28m36
payload_tx (TxPayload.ft6 t) = PdoType.tx_ft6

-- The IDs of a message's commands.
abbrev ids_in : {M : Type 0} → (M → ℤ) → Option (List M) → List ℤ
ids_in id none = []
ids_in id (some ms) = map id ms

abbrev id_in : {M : Type 0} → (M → ℤ) → Option M → List ℤ
id_in id none = []
id_in id (some m) = id m ∷ []

-- A PDO of one command type: discriminator and payload are of that type.
abbrev pub IsOf : {V : Type 0} → Ros2CommandType → TxPdo V → Type 0
IsOf t pdo = (pdo.type ≡ command_tx t) × (payload_tx pdo.payload ≡ command_tx t)

module _ {V M : Type 0} (t : Ros2CommandType) (convert : M → TxPdo V) (id : M → ℤ)
    (typed : (m : M) → IsOf t (convert m) × ((convert m).index ≡ id m)) where
  abbrev Good : List ℤ → List (TxPdo V) × Bool → Type 0
  Good ids result =
      All (IsOf t) result.0
      × (map (λ (pdo : TxPdo V). pdo.index) result.0 ≡ ids)
      × (result.1 ≡ not (is_empty result.0))

  converted : (ms : List M) → All (IsOf t) (map convert ms)
  converted [] = tt
  converted (m ∷ ms) = ((typed m).0, converted ms)

  indices : (ms : List M) → map (λ (pdo : TxPdo V). pdo.index) (map convert ms) ≡ map id ms
  indices [] = refl
  indices (m ∷ ms) = rw ((typed m).1, indices ms) refl

  deserialize_vector-Good :
      (parsed : Option (List M)) → Good (ids_in id parsed) (deserialize_vector convert parsed)
  unfolding deserialize_vector
  deserialize_vector-Good none = (tt, refl, refl)
  deserialize_vector-Good (some []) = (tt, refl, refl)
  deserialize_vector-Good (some (m ∷ ms)) = (converted (m ∷ ms), indices (m ∷ ms), refl)

  deserialize_single-Good :
      (parsed : Option M) → Good (id_in id parsed) (deserialize_single convert parsed)
  unfolding deserialize_single
  deserialize_single-Good none = (tt, refl, refl)
  deserialize_single-Good (some m) = (converted (m ∷ []), indices (m ∷ []), refl)

module _ {Payload : Type 0} (V : Type 0) ⦃cdr : Cdr Payload V⦄ where
  -- The IDs of the commands that a payload carries for a command type.
  abbrev pub command_ids : Ros2CommandType → Payload → List ℤ
  command_ids Ros2CommandType.joint payload =
      ids_in (λ (m : MotorTxPdoMsg V). m.ecat_id) (cdr.motors_of payload)
  command_ids Ros2CommandType.motor payload =
      ids_in (λ (m : MotorTxPdoMsg V). m.ecat_id) (cdr.motors_of payload)
  command_ids Ros2CommandType.motor_xt payload =
      ids_in (λ (m : MotorTxPdoMsg V). m.ecat_id) (cdr.motors_of payload)
  command_ids Ros2CommandType.valve payload =
      ids_in (λ (m : ValveTxPdoMsg V). m.ecat_id) (cdr.valves_of payload)
  command_ids Ros2CommandType.gripper payload =
      ids_in (λ (m : GripperTxPdoMsg V). m.ecat_id) (cdr.grippers_of payload)
  command_ids Ros2CommandType.pump payload =
      id_in (λ (m : PumpTxPdoMsg V). m.ecat_id) (cdr.pump_of payload)
  command_ids Ros2CommandType.power_board payload =
      id_in (λ (m : PowerBoardTxPdoMsg V). m.ecat_id) (cdr.power_board_of payload)
  command_ids Ros2CommandType.force_torque payload =
      id_in (λ (m : ForceTorqueTxPdoMsg V). m.ecat_id) (cdr.force_torque_of payload)

  -- A payload of any command type becomes one PDO for each of its commands, in order and with its ID;
  -- each has the discriminator and the payload of the command type. The result is true exactly if there
  -- is a PDO.
  pub deserialize_cycle-IsOf :
      (t : Ros2CommandType) (payload : Payload)
      → All (IsOf {V = V} t) (deserialize_cycle {V = V} t payload).0
        × (map (λ (pdo : TxPdo V). pdo.index) (deserialize_cycle {V = V} t payload).0
            ≡ command_ids t payload)
        × ((deserialize_cycle {V = V} t payload).1
            ≡ not (is_empty (deserialize_cycle {V = V} t payload).0))
  unfolding deserialize_cycle joint_tx motor_tx motor_xt_tx valve_tx gripper_tx pump_tx
      power_board_tx force_torque_tx
  deserialize_cycle-IsOf Ros2CommandType.joint payload =
      deserialize_vector-Good Ros2CommandType.joint joint_tx (λ m. m.ecat_id)
        (λ m. ((refl, refl), refl)) (cdr.motors_of payload)
  deserialize_cycle-IsOf Ros2CommandType.motor payload =
      deserialize_vector-Good Ros2CommandType.motor (motor_tx cdr.to_integer) (λ m. m.ecat_id)
        (λ m. ((refl, refl), refl)) (cdr.motors_of payload)
  deserialize_cycle-IsOf Ros2CommandType.motor_xt payload =
      deserialize_vector-Good Ros2CommandType.motor_xt motor_xt_tx (λ m. m.ecat_id)
        (λ m. ((refl, refl), refl)) (cdr.motors_of payload)
  deserialize_cycle-IsOf Ros2CommandType.valve payload =
      deserialize_vector-Good Ros2CommandType.valve valve_tx (λ m. m.ecat_id)
        (λ m. ((refl, refl), refl)) (cdr.valves_of payload)
  deserialize_cycle-IsOf Ros2CommandType.gripper payload =
      deserialize_vector-Good Ros2CommandType.gripper gripper_tx (λ m. m.ecat_id)
        (λ m. ((refl, refl), refl)) (cdr.grippers_of payload)
  deserialize_cycle-IsOf Ros2CommandType.pump payload =
      deserialize_single-Good Ros2CommandType.pump pump_tx (λ m. m.ecat_id)
        (λ m. ((refl, refl), refl)) (cdr.pump_of payload)
  deserialize_cycle-IsOf Ros2CommandType.power_board payload =
      deserialize_single-Good Ros2CommandType.power_board power_board_tx (λ m. m.ecat_id)
        (λ m. ((refl, refl), refl)) (cdr.power_board_of payload)
  deserialize_cycle-IsOf Ros2CommandType.force_torque payload =
      deserialize_single-Good Ros2CommandType.force_torque force_torque_tx (λ m. m.ecat_id)
        (λ m. ((refl, refl), refl)) (cdr.force_torque_of payload)
