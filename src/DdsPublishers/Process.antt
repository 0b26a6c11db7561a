-- ===== src/DdsPublishers/Process.antt =====
-- `process` of each publisher in src/dds_pdo_publisher.cpp of plugins/advrf_cyclonedds_plugin (and of
-- plugins/advrf_fastdds_plugin). A PDO comes with the time at which its conversion reads the clock.
use ecat_middleware_advr.Prelude.{ℕ, List, Option, none, some, Text, Result, ok, err, to_uint32}
use ecat_middleware_advr.Pdo.{PdoType, PdoMessage}
use ecat_middleware_advr.Pdo.Clock.{ClockOffset, Timespec}
use ecat_middleware_advr.Pdo.Ids.{resolve_name}
use ecat_middleware_advr.Converter.{Number, push_back}
use ecat_middleware_advr.Converter.Messages.{HeaderMsg}
use ecat_middleware_advr.Converter.Received.{
  PdoPayloads, ImuMsg, JointStateMsg, MotorMsg, ValveMsg, GripperMsg, PumpMsg, PowerBoardMsg,
  ForceTorqueMsg,
}
use ecat_middleware_advr.Converter.State.{
  NullString, header_from_pdo, imu_from_protobuf, joint_from_cia402, joint_from_xt_motor,
  joint_from_motor, joint_from_gripper, motor_from_cia402, motor_from_xt_motor, motor_from_motor,
  valve_from_protobuf, pump_from_protobuf, gripper_from_protobuf, power_board_from_protobuf,
  force_torque_from_protobuf,
}
use ecat_middleware_advr.DdsPublishers.{Processed}

-- A PDO and the clock when it is consumed.
pub record Received (Pdo : Type 0) : Type 0 where
  pub pdo : Pdo
  pub now : Timespec

module _ {Pdo : Type 0} ⦃p : PdoMessage Pdo⦄ where
  unfoldable pub device_name : List (ℕ × Text) → Pdo → Text
  device_name id_to_name pdo = resolve_name (to_uint32 (p.index pdo)) id_to_name

  abbrev pub header_of : ClockOffset → Received Pdo → HeaderMsg
  header_of g_offset r = header_from_pdo g_offset r.now r.pdo

  -- The header of a message for one device: the device's name is the frame.
  abbrev pub named_header : ClockOffset → List (ℕ × Text) → Received Pdo → HeaderMsg
  named_header g_offset id_to_name r = record (header_of g_offset r) {
    frame_id = device_name id_to_name r.pdo;
  }

module _ {Pdo V : Type 0} ⦃p : PdoMessage Pdo⦄ ⦃q : PdoPayloads Pdo V⦄ ⦃n : Number V⦄
    (g_offset : ClockOffset) (id_to_name : List (ℕ × Text)) where
  imu_type : PdoType → ImuMsg V → Received Pdo → Processed (ImuMsg V)
  imu_type PdoType.rx_imu_vn m r =
      Processed.updated (record (imu_from_protobuf (q.imuvn_rx_pdo r.pdo) m) {
        header = named_header g_offset id_to_name r;
      })
  imu_type _ m r = Processed.ignored

  unfoldable pub imu_process : ImuMsg V → Received Pdo → Processed (ImuMsg V)
  unfolding imu_type
  imu_process m r = imu_type (p.pdo_type r.pdo) m r

  -- The `switch` of `JointStatePublisher::process`.
  unfoldable pub joint_converted : PdoType → JointStateMsg V → Pdo → Option (JointStateMsg V)
  joint_converted PdoType.rx_cia402 m pdo = some (joint_from_cia402 (q.cia402_rx_pdo pdo) m)
  joint_converted PdoType.rx_xt_motor m pdo = some (joint_from_xt_motor (q.motor_xt_rx_pdo pdo) m)
  joint_converted PdoType.rx_motor m pdo = some (joint_from_motor (q.motor_rx_pdo pdo) m)
  joint_converted PdoType.rx_gripper m pdo = some (joint_from_gripper (q.gripper_rx_pdo pdo) m)
  joint_converted _ m pdo = none

  -- The name and the header, behind the `switch`.
  abbrev pub joint_finished : Received Pdo → Option (JointStateMsg V) → Processed (JointStateMsg V)
  joint_finished r none = Processed.ignored
  joint_finished r (some m) = Processed.updated (record m {
    name = push_back m.name (device_name id_to_name r.pdo);
    header = header_of g_offset r;
  })

  unfoldable pub joint_process : JointStateMsg V → Received Pdo → Processed (JointStateMsg V)
  joint_process m r = joint_finished r (joint_converted (p.pdo_type r.pdo) m r.pdo)

  -- The `switch` of `MotorsPublisher::process`.
  unfoldable pub motor_converted :
      PdoType → MotorMsg V → Pdo → Option (Result NullString (MotorMsg V))
  motor_converted PdoType.rx_cia402 m pdo = some (ok (motor_from_cia402 (q.cia402_rx_pdo pdo) m))
  motor_converted PdoType.rx_xt_motor m pdo = some (motor_from_xt_motor (q.motor_xt_rx_pdo pdo) m)
  motor_converted PdoType.rx_motor m pdo = some (motor_from_motor (q.motor_rx_pdo pdo) m)
  motor_converted _ m pdo = none

  abbrev pub motor_finished :
      Received Pdo → Option (Result NullString (MotorMsg V)) → Processed (MotorMsg V)
  motor_finished r none = Processed.ignored
  motor_finished r (some (err e)) = Processed.thrown e
  motor_finished r (some (ok m)) = Processed.updated (record m {
    name = push_back m.name (device_name id_to_name r.pdo);
    header = header_of g_offset r;
  })

  unfoldable pub motor_process : MotorMsg V → Received Pdo → Processed (MotorMsg V)
  motor_process m r = motor_finished r (motor_converted (p.pdo_type r.pdo) m r.pdo)

  power_board_type : PdoType → PowerBoardMsg V → Received Pdo → Processed (PowerBoardMsg V)
  power_board_type PdoType.rx_pow_f28m36 m r =
      Processed.updated (record (power_board_from_protobuf (q.powf28m36_rx_pdo r.pdo) m) {
        header = named_header g_offset id_to_name r;
      })
  power_board_type _ m r = Processed.ignored

  unfoldable pub power_board_process : PowerBoardMsg V → Received Pdo → Processed (PowerBoardMsg V)
  unfolding power_board_type
  power_board_process m r = power_board_type (p.pdo_type r.pdo) m r

  pump_type : PdoType → PumpMsg V → Received Pdo → Processed (PumpMsg V)
  pump_type PdoType.rx_hyq_hpu m r =
      Processed.updated (record (pump_from_protobuf (q.hyqhpu_rx_pdo r.pdo) m) {
        header = named_header g_offset id_to_name r;
      })
  pump_type _ m r = Processed.ignored

  unfoldable pub pump_process : PumpMsg V → Received Pdo → Processed (PumpMsg V)
  unfolding pump_type
  pump_process m r = pump_type (p.pdo_type r.pdo) m r

  force_torque_type : PdoType → ForceTorqueMsg V → Received Pdo → Processed (ForceTorqueMsg V)
  force_torque_type PdoType.rx_ft6 m r =
      Processed.updated (record (force_torque_from_protobuf (q.ft6_rx_pdo r.pdo) m) {
        header = named_header g_offset id_to_name r;
      })
  force_torque_type _ m r = Processed.ignored

  unfoldable pub force_torque_process :
      ForceTorqueMsg V → Received Pdo → Processed (ForceTorqueMsg V)
  unfolding force_torque_type
  force_torque_process m r = force_torque_type (p.pdo_type r.pdo) m r

  unfoldable pub valve_type : PdoType → ValveMsg V → Received Pdo → Processed (ValveMsg V)
  valve_type PdoType.rx_hyq_knee m r =
      let converted = valve_from_protobuf (q.hyqknee_rx_pdo r.pdo) m in
      Processed.updated (record converted {
        name = push_back converted.name (device_name id_to_name r.pdo);
        header = header_of g_offset r;
      })
  valve_type _ m r = Processed.ignored

  unfoldable pub valve_process : ValveMsg V → Received Pdo → Processed (ValveMsg V)
  unfolding valve_type
  valve_process m r = valve_type (p.pdo_type r.pdo) m r

  unfoldable pub gripper_type : PdoType → GripperMsg V → Received Pdo → Processed (GripperMsg V)
  gripper_type PdoType.rx_gripper m r =
      let converted = gripper_from_protobuf (q.gripper_rx_pdo r.pdo) m in
      Processed.updated (record converted {
        name = push_back converted.name (device_name id_to_name r.pdo);
        header = header_of g_offset r;
      })
  gripper_type _ m r = Processed.ignored

  unfoldable pub gripper_process : GripperMsg V → Received Pdo → Processed (GripperMsg V)
  unfolding gripper_type
  gripper_process m r = gripper_type (p.pdo_type r.pdo) m r
