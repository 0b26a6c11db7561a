-- ===== src/ZenohCommands/Messages.antt =====
-- What the deserialisers of src/ros2cdr.cpp in plugins/advrf_zenoh_plugin read and write: the messages of
-- interfaces/advrf_interfaces_dds/idl, and the transmit PDOs of protobuf.
use ecat_middleware_advr.Prelude.{ℕ, ℤ}
use ecat_middleware_advr.Pdo.{PdoType}
use ecat_middleware_advr.Converter.MotorTx.{MotorXtTxPdo}

-- The messages of the IDL files, beside that of the motors.
pub record ValveTxPdoMsg (V : Type 0) : Type 0 where
  pub ecat_id : ℤ
  pub current_ref : V
  pub position_ref : V
  pub force_ref : V
  pub gain_0 : V
  pub gain_1 : V
  pub gain_2 : V
  pub gain_3 : V
  pub gain_4 : V
  pub fault_ack : ℕ
  pub ts : ℕ
  pub op_idx_aux : ℕ
  pub aux : V

pub record GripperTxPdoMsg (V : Type 0) : Type 0 where
  pub ecat_id : ℤ
  pub target_pos : V
  pub target_vel : V
  pub target_torque : V
  pub gain_0 : V
  pub gain_1 : V
  pub gain_2 : V
  pub gain_3 : V
  pub gain_4 : V

pub record PumpTxPdoMsg (V : Type 0) : Type 0 where
  pub ecat_id : ℤ
  pub pump_target : V
  pub pressure_p_gain : V
  pub pressure_i_gain : V
  pub pressure_d_gain : V
  pub pressure_i_limit : V
  pub fault_ack : ℕ
  pub solenoid_out : ℕ
  pub ts : ℕ
  pub op_idx_aux : ℕ
  pub aux : V

pub record PowerBoardTxPdoMsg (V : Type 0) : Type 0 where
  pub ecat_id : ℤ
  pub master_command : ℕ
  pub fault_ack : ℕ
  pub op_idx_aux : ℕ
  pub aux : V

pub record ForceTorqueTxPdoMsg (V : Type 0) : Type 0 where
  pub ecat_id : ℤ
  pub ts : ℕ
  pub op_idx_aux : ℕ
  pub aux : V

-- The payloads of the transmit PDOs: the fields that are set.
pub record JointTarget (V : Type 0) : Type 0 where
  pub target_torque : V
  pub target_pos : V
  pub target_vel : V
  pub target_current : V
  pub gain_0 : V
  pub gain_1 : V
  pub gain_2 : V
  pub gain_3 : V
  pub gain_4 : V

pub record MotorTarget (V : Type 0) : Type 0 where
  pub pos_ref : V
  pub fault_ack : ℕ
  pub gainp : ℤ
  pub gaind : ℤ
  pub ts : ℕ

pub record ValveTarget (V : Type 0) : Type 0 where
  pub current_ref : V
  pub position_ref : V
  pub force_ref : V
  pub gain_0 : V
  pub gain_1 : V
  pub gain_2 : V
  pub gain_3 : V
  pub gain_4 : V
  pub fault_ack : ℕ
  pub ts : ℕ
  pub op_idx_aux : ℕ
  pub aux : V

pub record GripperTarget (V : Type 0) : Type 0 where
  pub target_pos : V
  pub target_vel : V
  pub target_torque : V
  pub gain_0 : V
  pub gain_1 : V
  pub gain_2 : V
  pub gain_3 : V
  pub gain_4 : V

pub record PumpTarget (V : Type 0) : Type 0 where
  pub pump_target : V
  pub pressure_p_gain : V
  pub pressure_i_gain : V
  pub pressure_d_gain : V
  pub pressure_i_limit : V
  pub fault_ack : ℕ
  pub solenoidout : ℕ
  pub ts : ℕ
  pub op_idx_aux : ℕ
  pub aux : V

pub record PowerBoardTarget (V : Type 0) : Type 0 where
  pub master_command : ℕ
  pub fault_ack : ℕ
  pub op_idx_aux : ℕ
  pub aux : V

pub record ForceTorqueTarget (V : Type 0) : Type 0 where
  pub ts : ℕ
  pub op_idx_aux : ℕ
  pub aux : V

-- The payload of a transmit PDO.
pub data TxPayload (V : Type 0) : Type 0 where
  cia402 : JointTarget V → TxPayload V
  motor : MotorTarget V → TxPayload V
  motor_xt : MotorXtTxPdo V → TxPayload V
  hyq_knee : ValveTarget V → TxPayload V
  gripper : GripperTarget V → TxPayload V
  hyq_hpu : PumpTarget V → TxPayload V
  pow_f28m36 : PowerBoardTarget V → TxPayload V
  ft6 : ForceTorqueTarget V → TxPayload V

-- A PDO as the deserialisers fill it.
pub record TxPdo (V : Type 0) : Type 0 where
  pub type : PdoType
  pub index : ℤ
  pub payload : TxPayload V
