-- ===== src/ZenohState.antt =====
-- State messages over Zenoh: the serialisers of src/ros2cdr.cpp in plugins/advrf_zenoh_plugin, up to the
-- message that they pass to `ros2cdr::serialize_idl`, which is not modelled. The conversions are those
-- of plugins/advrf_dds_common.
pub mod Rows
use ecat_middleware_advr.Prelude.{
  ℕ, ℤ, Bool, true, false, ◌&&◌, not, if◌then◌else◌, List, [], ◌∷◌, ◌++◌, Option, none, some, Text,
  Result, ok, err, ◌>>=◌, to_uint32, last_or,
}
use ecat_middleware_advr.Pdo.{PdoType, PdoMessage}
use ecat_middleware_advr.Converter.{Number, push_back}
use ecat_middleware_advr.Converter.Messages.{HeaderMsg}
use ecat_middleware_advr.Converter.Received.{
  PdoPayloads, ImuMsg, JointStateMsg, MotorMsg, ValveMsg, GripperMsg, PumpMsg, PowerBoardMsg,
  ForceTorqueMsg, empty_imu, empty_joint_state, empty_motor, empty_valve, empty_gripper, empty_pump,
  empty_power_board, empty_force_torque,
}
use ecat_middleware_advr.Converter.State.{
  NullString, imu_from_protobuf, joint_from_cia402, joint_from_xt_motor, joint_from_motor,
  joint_from_gripper, joint_from_hyq_knee, motor_from_cia402, motor_from_xt_motor, motor_from_motor,
  valve_from_protobuf, pump_from_protobuf, gripper_from_protobuf, power_board_from_protobuf,
  force_torque_from_protobuf,
}

-- The message that is passed to `serialize_idl`; `none` where a serialiser returns false before.
abbrev pub Serialized : Type 0 → Type 0
Serialized Msg = Result NullString (Option Msg)

pub data Ros2MessageType : Type 0 where
  joint_state motor valve gripper imu power_board pump force_torque : Ros2MessageType

pub data StateMsg (V : Type 0) : Type 0 where
  joint_state : JointStateMsg V → StateMsg V
  motor : MotorMsg V → StateMsg V
  valve : ValveMsg V → StateMsg V
  gripper : GripperMsg V → StateMsg V
  imu : ImuMsg V → StateMsg V
  power_board : PowerBoardMsg V → StateMsg V
  pump : PumpMsg V → StateMsg V
  force_torque : ForceTorqueMsg V → StateMsg V

abbrev as_state : {V Msg : Type 0} → (Msg → StateMsg V) → Serialized Msg → Serialized (StateMsg V)
as_state f (err e) = err e
as_state f (ok none) = ok none
as_state f (ok (some m)) = ok (some (f m))

-- What follows the call of `append`: false ends the loop.
abbrev pub appended_then : {Msg : Type 0} → (Msg → Serialized Msg) → Option Msg → Serialized Msg
appended_then rest none = ok none
appended_then rest (some m) = rest m

module _ {Pdo : Type 0} ⦃p : PdoMessage Pdo⦄ where
  unfoldable pub has_valid_header : Pdo → Bool
  has_valid_header pdo = p.has_header pdo && p.has_stamp pdo

  -- The header that `set_header` writes.
  unfoldable pub header_for : Bool → Pdo → HeaderMsg
  header_for include_frame_id pdo = record {
    stamp = record { sec = p.sec pdo; nanosec = to_uint32 (p.nsec pdo) };
    frame_id = if include_frame_id then p.str_id pdo else [];
  }

  module _ {Msg : Type 0} (empty : Msg) (with_header : HeaderMsg → Msg → Msg) where
    -- The loop of `serialize_aggregate`.
    unfoldable pub append_all : (Pdo → Msg → Serialized Msg) → List Pdo → Msg → Serialized Msg
    append_all append [] m = ok (some m)
    append_all append (pdo ∷ pdos) m =
        let appended = append pdo m >>= λ result. appended_then (append_all append pdos) result in
        if not (has_valid_header pdo) then ok none else appended

    unfoldable pub finish_aggregate : Pdo → Option Msg → Serialized Msg
    finish_aggregate last none = ok none
    finish_aggregate last (some m) = ok (some (with_header (header_for false last) m))

    -- The header is that of the last PDO.
    unfoldable pub serialize_aggregate : (Pdo → Msg → Serialized Msg) → List Pdo → Serialized Msg
    serialize_aggregate append [] = ok none
    serialize_aggregate append (pdo ∷ pdos) =
        append_all append (pdo ∷ pdos) empty >>= finish_aggregate (last_or pdo pdos)

    -- One PDO of the expected type with a header; `convert` is given by the type.
    unfoldable pub serialize_device : (PdoType → Pdo → Msg → Option Msg) → List Pdo → Serialized Msg
    serialize_device convert (pdo ∷ []) = elim (convert (p.pdo_type pdo) pdo empty) [
      | none ↦ ok none
      | some m ↦
          if has_valid_header pdo then ok (some (with_header (header_for true pdo) m)) else ok none
    ]
    serialize_device convert _ = ok none

module _ {Pdo V : Type 0} ⦃p : PdoMessage Pdo⦄ ⦃q : PdoPayloads Pdo V⦄ ⦃n : Number V⦄ where
  abbrev pub named_joint : Pdo → JointStateMsg V → Serialized (JointStateMsg V)
  named_joint pdo m = ok (some (record m { name = push_back m.name (p.str_id pdo) }))

  unfoldable pub append_joint_type : PdoType → Pdo → JointStateMsg V → Serialized (JointStateMsg V)
  append_joint_type PdoType.rx_cia402 pdo m =
      named_joint pdo (joint_from_cia402 (q.cia402_rx_pdo pdo) m)
  append_joint_type PdoType.rx_xt_motor pdo m =
      named_joint pdo (joint_from_xt_motor (q.motor_xt_rx_pdo pdo) m)
  append_joint_type PdoType.rx_motor pdo m =
      named_joint pdo (joint_from_motor (q.motor_rx_pdo pdo) m)
  append_joint_type PdoType.rx_gripper pdo m =
      named_joint pdo (joint_from_gripper (q.gripper_rx_pdo pdo) m)
  append_joint_type PdoType.rx_hyq_knee pdo m =
      named_joint pdo (joint_from_hyq_knee (q.hyqknee_rx_pdo pdo) m)
  append_joint_type _ pdo m = ok none

  unfoldable pub serialize_joint_state : List Pdo → Serialized (JointStateMsg V)
  serialize_joint_state =
      serialize_aggregate empty_joint_state (λ h m. record m { header = h })
        (λ pdo m. append_joint_type (p.pdo_type pdo) pdo m)

  abbrev pub named_motor : Pdo → MotorMsg V → Serialized (MotorMsg V)
  named_motor pdo m = ok (some (record m { name = push_back m.name (p.str_id pdo) }))

  unfoldable pub append_motor_type : PdoType → Pdo → MotorMsg V → Serialized (MotorMsg V)
  append_motor_type PdoType.rx_cia402 pdo m =
      named_motor pdo (motor_from_cia402 (q.cia402_rx_pdo pdo) m)
  append_motor_type PdoType.rx_xt_motor pdo m =
      motor_from_xt_motor (q.motor_xt_rx_pdo pdo) m >>= named_motor pdo
  append_motor_type PdoType.rx_motor pdo m =
      motor_from_motor (q.motor_rx_pdo pdo) m >>= named_motor pdo
  append_motor_type _ pdo m = ok none

  unfoldable pub serialize_motor : List Pdo → Serialized (MotorMsg V)
  serialize_motor =
      serialize_aggregate empty_motor (λ h m. record m { header = h })
        (λ pdo m. append_motor_type (p.pdo_type pdo) pdo m)

  unfoldable pub append_valve_type : PdoType → Pdo → ValveMsg V → Serialized (ValveMsg V)
  append_valve_type PdoType.rx_hyq_knee pdo m =
      let converted = valve_from_protobuf (q.hyqknee_rx_pdo pdo) m in
      ok (some (record converted { name = push_back converted.name (p.str_id pdo) }))
  append_valve_type _ pdo m = ok none

  unfoldable pub serialize_valve : List Pdo → Serialized (ValveMsg V)
  serialize_valve =
      serialize_aggregate empty_valve (λ h m. record m { header = h })
        (λ pdo m. append_valve_type (p.pdo_type pdo) pdo m)

  unfoldable pub append_gripper_type : PdoType → Pdo → GripperMsg V → Serialized (GripperMsg V)
  append_gripper_type PdoType.rx_gripper pdo m =
      let converted = gripper_from_protobuf (q.gripper_rx_pdo pdo) m in
      ok (some (record converted { name = push_back converted.name (p.str_id pdo) }))
  append_gripper_type _ pdo m = ok none

  unfoldable pub serialize_gripper : List Pdo → Serialized (GripperMsg V)
  serialize_gripper =
      serialize_aggregate empty_gripper (λ h m. record m { header = h })
        (λ pdo m. append_gripper_type (p.pdo_type pdo) pdo m)

  unfoldable pub convert_imu : PdoType → Pdo → ImuMsg V → Option (ImuMsg V)
  convert_imu PdoType.rx_imu_vn pdo m = some (imu_from_protobuf (q.imuvn_rx_pdo pdo) m)
  convert_imu _ pdo m = none

  unfoldable pub serialize_imu : List Pdo → Serialized (ImuMsg V)
  serialize_imu = serialize_device empty_imu (λ h m. record m { header = h }) convert_imu

  unfoldable pub convert_power_board : PdoType → Pdo → PowerBoardMsg V → Option (PowerBoardMsg V)
  convert_power_board PdoType.rx_pow_f28m36 pdo m =
      some (power_board_from_protobuf (q.powf28m36_rx_pdo pdo) m)
  convert_power_board _ pdo m = none

  unfoldable pub serialize_power_board : List Pdo → Serialized (PowerBoardMsg V)
  serialize_power_board =
      serialize_device empty_power_board (λ h m. record m { header = h }) convert_power_board

  unfoldable pub convert_pump : PdoType → Pdo → PumpMsg V → Option (PumpMsg V)
  convert_pump PdoType.rx_hyq_hpu pdo m =
      some (record (pump_from_protobuf (q.hyqhpu_rx_pdo pdo) m) { name = p.str_id pdo })
  convert_pump _ pdo m = none

  unfoldable pub serialize_pump : List Pdo → Serialized (PumpMsg V)
  serialize_pump = serialize_device empty_pump (λ h m. record m { header = h }) convert_pump

  unfoldable pub convert_force_torque : PdoType → Pdo → ForceTorqueMsg V → Option (ForceTorqueMsg V)
  convert_force_torque PdoType.rx_ft6 pdo m = some (force_torque_from_protobuf (q.ft6_rx_pdo pdo) m)
  convert_force_torque _ pdo m = none

  unfoldable pub serialize_force_torque : List Pdo → Serialized (ForceTorqueMsg V)
  serialize_force_torque =
      serialize_device empty_force_torque (λ h m. record m { header = h }) convert_force_torque

  unfoldable pub serialize_cycle : Ros2MessageType → List Pdo → Serialized (StateMsg V)
  serialize_cycle Ros2MessageType.joint_state pdos =
      as_state StateMsg.joint_state (serialize_joint_state pdos)
  serialize_cycle Ros2MessageType.motor pdos = as_state StateMsg.motor (serialize_motor pdos)
  serialize_cycle Ros2MessageType.valve pdos = as_state StateMsg.valve (serialize_valve pdos)
  serialize_cycle Ros2MessageType.gripper pdos = as_state StateMsg.gripper (serialize_gripper pdos)
  serialize_cycle Ros2MessageType.imu pdos = as_state StateMsg.imu (serialize_imu pdos)
  serialize_cycle Ros2MessageType.power_board pdos =
      as_state StateMsg.power_board (serialize_power_board pdos)
  serialize_cycle Ros2MessageType.pump pdos = as_state StateMsg.pump (serialize_pump pdos)
  serialize_cycle Ros2MessageType.force_torque pdos =
      as_state StateMsg.force_torque (serialize_force_torque pdos)
