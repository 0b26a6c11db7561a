-- ===== src/ZenohCommands.antt =====
-- Commands over Zenoh: the deserialisers of src/ros2cdr.cpp in plugins/advrf_zenoh_plugin. A payload is
-- parsed by `ros2cdr::deserialize_idl`, which is a parameter; from its message on the code is modelled.
pub mod Messages
pub mod Typed
use ecat_middleware_advr.Prelude.{
  ℕ, ℤ, Bool, true, false, not, is_empty, List, [], ◌∷◌, map, Option, none, some,
}
use ecat_middleware_advr.Pdo.{PdoType}
use ecat_middleware_advr.Converter.Messages.{MotorTxPdoMsg}
use ecat_middleware_advr.ZenohCommands.Messages.{
  ValveTxPdoMsg, GripperTxPdoMsg, PumpTxPdoMsg, PowerBoardTxPdoMsg, ForceTorqueTxPdoMsg, TxPayload,
  TxPdo,
}
use ecat_middleware_advr.Converter.MotorTx.{MotorXtTxPdo, motor_xt_tx_from_dds}

pub data Ros2CommandType : Type 0 where
  joint motor motor_xt valve gripper pump power_board force_torque : Ros2CommandType

-- `ros2cdr::deserialize_idl` for each message, and `static_cast<std::int32_t>` of a floating-point value.
pub record Cdr (Payload V : Type 0) : Type 0 where
  pub motors_of : Payload → Option (List (MotorTxPdoMsg V))
  pub valves_of : Payload → Option (List (ValveTxPdoMsg V))
  pub grippers_of : Payload → Option (List (GripperTxPdoMsg V))
  pub pump_of : Payload → Option (PumpTxPdoMsg V)
  pub power_board_of : Payload → Option (PowerBoardTxPdoMsg V)
  pub force_torque_of : Payload → Option (ForceTorqueTxPdoMsg V)
  pub to_integer : V → ℤ

-- The PDOs and the result. What `pdos` held before is cleared.
unfoldable pub deserialize_vector :
    {V M : Type 0} → (M → TxPdo V) → Option (List M) → List (TxPdo V) × Bool
deserialize_vector convert none = ([], false)
deserialize_vector convert (some []) = ([], false)
deserialize_vector convert (some (command ∷ commands)) = (map convert (command ∷ commands), true)

unfoldable pub deserialize_single :
    {V M : Type 0} → (M → TxPdo V) → Option M → List (TxPdo V) × Bool
deserialize_single convert none = ([], false)
deserialize_single convert (some message) = (convert message ∷ [], true)

module _ {V : Type 0} where
  unfoldable pub joint_tx : MotorTxPdoMsg V → TxPdo V
  joint_tx m = record {
    type = PdoType.tx_cia402;
    index = m.ecat_id;
    payload = TxPayload.cia402 (record {
      target_torque = m.tor_ref;
      target_pos = m.pos_ref;
      target_vel = m.vel_ref;
      target_current = m.cur_ref;
      gain_0 = m.gain_0;
      gain_1 = m.gain_1;
      gain_2 = m.gain_2;
      gain_3 = m.gain_3;
      gain_4 = m.gain_4;
    });
  }

  unfoldable pub motor_tx : (V → ℤ) → MotorTxPdoMsg V → TxPdo V
  motor_tx to_integer m = record {
    type = PdoType.tx_motor;
    index = m.ecat_id;
    payload = TxPayload.motor (record {
      pos_ref = m.pos_ref;
      fault_ack = m.fault_ack;
      gainp = to_integer m.gain_0;
      gaind = to_integer m.gain_1;
      ts = m.ts;
    });
  }

  unfoldable pub motor_xt_tx : MotorTxPdoMsg V → TxPdo V
  motor_xt_tx m = record {
    type = PdoType.tx_xt_motor;
    index = m.ecat_id;
    payload = TxPayload.motor_xt (motor_xt_tx_from_dds m);
  }

  unfoldable pub valve_tx : ValveTxPdoMsg V → TxPdo V
  valve_tx m = record {
    type = PdoType.tx_hyq_knee;
    index = m.ecat_id;
    payload = TxPayload.hyq_knee (record {
      current_ref = m.current_ref;
      position_ref = m.position_ref;
      force_ref = m.force_ref;
      gain_0 = m.gain_0;
      gain_1 = m.gain_1;
      gain_2 = m.gain_2;
      gain_3 = m.gain_3;
      gain_4 = m.gain_4;
      fault_ack = m.fault_ack;
      ts = m.ts;
      op_idx_aux = m.op_idx_aux;
      aux = m.aux;
    });
  }

  unfoldable pub gripper_tx : GripperTxPdoMsg V → TxPdo V
  gripper_tx m = record {
    type = PdoType.tx_gripper;
    index = m.ecat_id;
    payload = TxPayload.gripper (record {
      target_pos = m.target_pos;
      target_vel = m.target_vel;
      target_torque = m.target_torque;
      gain_0 = m.gain_0;
      gain_1 = m.gain_1;
      gain_2 = m.gain_2;
      gain_3 = m.gain_3;
      gain_4 = m.gain_4;
    });
  }

  unfoldable pub pump_tx : PumpTxPdoMsg V → TxPdo V
  pump_tx m = record {
    type = PdoType.tx_hyq_hpu;
    index = m.ecat_id;
    payload = TxPayload.hyq_hpu (record {
      pump_target = m.pump_target;
      pressure_p_gain = m.pressure_p_gain;
      pressure_i_gain = m.pressure_i_gain;
      pressure_d_gain = m.pressure_d_gain;
      pressure_i_limit = m.pressure_i_limit;
      fault_ack = m.fault_ack;
      ts = m.ts;
      op_idx_aux = m.op_idx_aux;
      aux = m.aux;
      solenoidout = m.solenoid_out;
    });
  }

  unfoldable pub power_board_tx : PowerBoardTxPdoMsg V → TxPdo V
  power_board_tx m = record {
    type = PdoType.tx_pow_f28m36;
    index = m.ecat_id;
    payload = TxPayload.pow_f28m36 (record {
      master_command = m.master_command;
      fault_ack = m.fault_ack;
      op_idx_aux = m.op_idx_aux;
      aux = m.aux;
    });
  }

  unfoldable pub force_torque_tx : ForceTorqueTxPdoMsg V → TxPdo V
  force_torque_tx m = record {
    type = PdoType.tx_ft6;
    index = m.ecat_id;
    payload = TxPayload.ft6 (record { ts = m.ts; op_idx_aux = m.op_idx_aux; aux = m.aux });
  }

module _ {Payload V : Type 0} ⦃cdr : Cdr Payload V⦄ where
  unfoldable pub deserialize_cycle : Ros2CommandType → Payload → List (TxPdo V) × Bool
  deserialize_cycle Ros2CommandType.joint payload =
      deserialize_vector joint_tx (cdr.motors_of payload)
  deserialize_cycle Ros2CommandType.motor payload =
      deserialize_vector (motor_tx cdr.to_integer) (cdr.motors_of payload)
  deserialize_cycle Ros2CommandType.motor_xt payload =
      deserialize_vector motor_xt_tx (cdr.motors_of payload)
  deserialize_cycle Ros2CommandType.valve payload =
      deserialize_vector valve_tx (cdr.valves_of payload)
  deserialize_cycle Ros2CommandType.gripper payload =
      deserialize_vector gripper_tx (cdr.grippers_of payload)
  deserialize_cycle Ros2CommandType.pump payload = deserialize_single pump_tx (cdr.pump_of payload)
  deserialize_cycle Ros2CommandType.power_board payload =
      deserialize_single power_board_tx (cdr.power_board_of payload)
  deserialize_cycle Ros2CommandType.force_torque payload =
      deserialize_single force_torque_tx (cdr.force_torque_of payload)
