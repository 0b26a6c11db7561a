-- ===== src/Examples/Forwarding.antt =====
-- The theorems on the Zenoh serialisers and on the forwarding of PDOs, at concrete inputs.
use ecat_middleware_advr.Prelude.{
  ℕ, pos, ◌≡◌, Bool, true, false, not, is_empty, List, [], ◌∷◌, map, none, some, All, to_uint32,
  ◌↔◌,
}
use ecat_middleware_advr.Channel.{ChannelTx, DeviceTypeTx, device_for_tx}
use ecat_middleware_advr.Pdo.{PdoType}
use ecat_middleware_advr.Converter.Messages.{MotorTxPdoMsg}
use ecat_middleware_advr.Converter.Received.{empty_joint_state}
use ecat_middleware_advr.Subscribers.{push}
use ecat_middleware_advr.Subscribers.Pushed.{is_routed, push_iff}
use ecat_middleware_advr.ZenohCommands.{Ros2CommandType, Cdr, deserialize_cycle}
use ecat_middleware_advr.ZenohCommands.Messages.{TxPdo}
use ecat_middleware_advr.ZenohCommands.Typed.{IsOf, command_ids, deserialize_cycle-IsOf}
use ecat_middleware_advr.ZenohState.{serialize_joint_state}
use ecat_middleware_advr.ZenohState.Rows.{SerializedRows, state_rows, serialize_joint_state_lem}
use ecat_middleware_advr.Examples.Samples.{Sample, sample, sample_message, number, sample_payloads}

-- A payload that is a list of the commands of motors.
instance abbrev pub motors_only : Cdr (List (MotorTxPdoMsg ℕ)) ℕ
motors_only = record {
  motors_of = some;
  valves_of = λ p. none;
  grippers_of = λ p. none;
  pump_of = λ p. none;
  power_board_of = λ p. none;
  force_torque_of = λ p. none;
  to_integer = pos;
}

abbrev command : MotorTxPdoMsg ℕ
command = record {
  ecat_id = pos 3;
  pos_ref = 1;
  vel_ref = 2;
  tor_ref = 3;
  cur_ref = 4;
  gain_0 = 5;
  gain_1 = 6;
  gain_2 = 7;
  gain_3 = 8;
  gain_4 = 9;
  fault_ack = 0;
  ts = 11;
  op_idx_aux = 12;
  aux = 13;
}

abbrev pub commands : List (MotorTxPdoMsg ℕ)
commands = command ∷ record command { ecat_id = pos 4 } ∷ []

deserialize_cycle-IsOf_example :
    All
      (IsOf {V = ℕ} Ros2CommandType.joint)
      (deserialize_cycle {V = ℕ} Ros2CommandType.joint commands).0
    × (map
          (λ (pdo : TxPdo ℕ). pdo.index)
          (deserialize_cycle {V = ℕ} Ros2CommandType.joint commands).0
        ≡ command_ids ℕ Ros2CommandType.joint commands)
    × ((deserialize_cycle {V = ℕ} Ros2CommandType.joint commands).1
        ≡ not (is_empty (deserialize_cycle {V = ℕ} Ros2CommandType.joint commands).0))
deserialize_cycle-IsOf_example = deserialize_cycle-IsOf ℕ Ros2CommandType.joint commands

-- A drive and a gripper.
abbrev joints : List Sample
joints = sample PdoType.rx_gripper 4 50 ∷ []

serialize_joint_state_lem_example :
    SerializedRows {V = ℕ} empty_joint_state
      (state_rows (sample PdoType.rx_cia402 3 100 ∷ joints))
      (serialize_joint_state (sample PdoType.rx_cia402 3 100 ∷ joints))
serialize_joint_state_lem_example =
    serialize_joint_state_lem ℕ (sample PdoType.rx_cia402 3 100) joints

abbrev forwarded : Sample
forwarded = sample PdoType.tx_motor 3 1

abbrev accepts : DeviceTypeTx → ℕ → Sample → Bool
accepts device id pdo = true

push_iff_example :
    (((push accepts true ChannelTx.motor forwarded).0 ≡ some (DeviceTypeTx.motor, 3)) ↔ (
      (device_for_tx ChannelTx.motor ≡ some DeviceTypeTx.motor)
      × (true ≡ true)
      × (is_routed accepts forwarded ≡ true)
      × (to_uint32 (pos 3) ≡ 3)))
    × ((push accepts true ChannelTx.motor forwarded).0 ≡ some (DeviceTypeTx.motor, 3)
        → (push accepts true ChannelTx.motor forwarded).1 ≡ true)
    × ((push accepts true ChannelTx.motor forwarded).0 ≡ none
        → (push accepts true ChannelTx.motor forwarded).1 ≡ false)
push_iff_example = push_iff accepts true ChannelTx.motor forwarded DeviceTypeTx.motor 3
