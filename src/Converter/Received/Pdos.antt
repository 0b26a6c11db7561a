-- ===== src/Converter/Received/Pdos.antt =====
-- The receive PDOs of the master, which protobuf generates: the fields that the conversions of
-- src/converter.cpp in plugins/advrf_dds_common read, and the accessors of a PDO's payload.
use ecat_middleware_advr.Prelude.{ℕ, ℤ, Text}

pub record ImuVnRxPdo (V : Type 0) : Type 0 where
  pub x_acc : V
  pub y_acc : V
  pub z_acc : V
  pub x_rate : V
  pub y_rate : V
  pub z_rate : V
  pub x_quat : V
  pub y_quat : V
  pub z_quat : V
  pub w_quat : V
  pub imu_ts : ℕ
  pub temperature : ℕ
  pub digital_in : ℕ
  pub fault : ℕ
  pub rtt : ℕ

pub record Cia402RxPdo (V : Type 0) : Type 0 where
  pub statusword : ℕ
  pub modes_of_op : ℤ
  pub motor_pos : V
  pub motor_vel : V
  pub link_pos : V
  pub link_vel : V
  pub current : V
  pub torque : V
  pub demanded_pos : V
  pub demanded_vel : V
  pub demanded_torque : V
  pub demanded_current : V
  pub control_effort : V
  pub motor_temp : V
  pub drive_temp : ℤ
  pub error_code : ℕ
  pub error_report : Text

pub record MotorXtRxPdo (V : Type 0) : Type 0 where
  pub motor_pos : V
  pub link_pos : V
  pub motor_vel : V
  pub link_vel : V
  pub torque : V
  pub motor_temp : V
  pub fault : ℕ
  pub rtt : ℕ

pub record MotorRxPdo (V : Type 0) : Type 0 where
  pub motor_pos : V
  pub link_pos : V
  pub torque : V
  pub fault : ℕ
  pub rtt : ℕ

pub record HyqKneeRxPdo (V : Type 0) : Type 0 where
  pub force : V
  pub pressure_1 : V
  pub pressure_2 : V
  pub encoder_position : V
  pub current : V
  pub temperature : V
  pub fault : ℕ
  pub rtt : ℕ
  pub op_idx_ack : ℕ
  pub aux : V
  pub current_ref_fb : V
  pub position_ref_fb : V
  pub force_ref_fb : V

pub record HyqHpuRxPdo (V : Type 0) : Type 0 where
  pub motor_current : V
  pub motor_speed : V
  pub pressure1 : V
  pub pressure2 : V
  pub temperature : ℕ
  pub mosfet_temperature : ℕ
  pub motor_temperature : ℤ
  pub fault : ℕ
  pub rtt : ℕ
  pub op_idx_ack : ℕ
  pub aux : V

pub record GripperRxPdo (V : Type 0) : Type 0 where
  pub statusword : ℕ
  pub motor_pos : V
  pub link_pos : V
  pub demanded_pos : V
  pub demanded_vel : V
  pub error_code : ℕ

pub record PowF28m36RxPdo (V : Type 0) : Type 0 where
  pub v_batt : V
  pub v_load : V
  pub i_load : V
  pub temp_pcb : V
  pub temp_heatsink : V
  pub temp_batt : V
  pub status : ℕ
  pub fault : ℕ
  pub rtt : ℤ
  pub op_idx_ack : ℕ
  pub aux : V

pub record Ft6RxPdo (V : Type 0) : Type 0 where
  pub force_x : V
  pub force_y : V
  pub force_z : V
  pub torque_x : V
  pub torque_y : V
  pub torque_z : V
  pub fault : ℕ
  pub rtt : ℕ
  pub op_idx_ack : ℕ
  pub aux : V

-- The payload accessors of `Ec_slave_pdo`; each returns a default message where the PDO has another.
pub record PdoPayloads (Pdo V : Type 0) : Type 0 where
  pub imuvn_rx_pdo : Pdo → ImuVnRxPdo V
  pub cia402_rx_pdo : Pdo → Cia402RxPdo V
  pub motor_xt_rx_pdo : Pdo → MotorXtRxPdo V
  pub motor_rx_pdo : Pdo → MotorRxPdo V
  pub hyqknee_rx_pdo : Pdo → HyqKneeRxPdo V
  pub hyqhpu_rx_pdo : Pdo → HyqHpuRxPdo V
  pub gripper_rx_pdo : Pdo → GripperRxPdo V
  pub powf28m36_rx_pdo : Pdo → PowF28m36RxPdo V
  pub ft6_rx_pdo : Pdo → Ft6RxPdo V
