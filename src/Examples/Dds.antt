-- ===== src/Examples/Dds.antt =====
-- The theorems on the DDS publishers, conversions and settings, at concrete inputs.
use ecat_middleware_advr.Prelude.{
  ℕ, pos, ◌≡◌, refl, true, false, ◌&&◌, not, is_empty, to_int32, to_uint32, to_uint64, List, [],
  ◌∷◌, map, none, some, Text, codes, ok, any_of, if◌then◌else◌,
}
use ecat_middleware_advr.Channel.{ChannelRx, DeviceTypeRx}
use ecat_middleware_advr.Pdo.{PdoType}
use ecat_middleware_advr.Pdo.Clock.{
  ClockOffset, extract_timestamp_ns, monotonic_to_realtime, monotonic_now_ns,
}
use ecat_middleware_advr.Pdo.Ids.{find_name, resolve_name}
use ecat_middleware_advr.Converter.Messages.{GainsMsg, ReplCmdContentMsg, MotorTxPdoMsg}
use ecat_middleware_advr.Converter.Commands.{repl_cmds_from_dds, ctrl_cmd_start}
use ecat_middleware_advr.Converter.Commands.Faithful.{
  message_of, omits_gains, carried, repl_cmds_from_dds-message_of,
}
use ecat_middleware_advr.Converter.MotorTx.{cleared, motor_pdo_from_dds}
use ecat_middleware_advr.Converter.MotorTx.Routed.{IsRouted, motor_pdo_from_dds-IsRouted, tx_type}
use ecat_middleware_advr.Converter.State.{header_from_pdo, motor_from_cia402, time_from_ns}
use ecat_middleware_advr.Converter.Received.{
  JointStateMsg, MotorMsg, ValveMsg, empty_joint_state, empty_motor, empty_valve,
}
use ecat_middleware_advr.DdsPublishers.{
  PdoPublisher, run_cycle, begin_cycle, consume_all, consume, end_cycle,
}
use ecat_middleware_advr.DdsPublishers.Process.{
  Received, device_name, joint_process, motor_process, motor_converted,
}
use ecat_middleware_advr.DdsPublishers.Cycles.{failed}
use ecat_middleware_advr.DdsPublishers.Joints.{Appended, joint_rows, joint_cycle_lem}
use ecat_middleware_advr.DdsPublishers.Motors.{motor_cycle-failed}
use ecat_middleware_advr.DdsPublishers.Aligned.{MotorAligned, motor_cycle-Aligned}
use ecat_middleware_advr.Discover.{EcatMap}
use ecat_middleware_advr.Examples.Samples.{
  Sample, sample, sample_message, number, sample_payloads, clock_time,
}

abbrev offset : ClockOffset
offset = record { realtime_ns = 0; monotonic_ns = 0; k = 0 }

abbrev names : List (ℕ × Text)
names = (3, codes "knee") ∷ (4, codes "hand") ∷ []

abbrev received_at : Sample → Received Sample
received_at s = record { pdo = s; now = clock_time 9 0 }

-- A cycle with a drive, a gripper and a valve.
abbrev cycle : List (Received Sample)
cycle =
    received_at (sample PdoType.rx_cia402 3 100)
    ∷ received_at (sample PdoType.rx_gripper 4 50)
    ∷ received_at (sample PdoType.rx_hyq_knee 5 70)
    ∷ []

abbrev idle_joints : PdoPublisher (JointStateMsg ℕ)
idle_joints = record { message = empty_joint_state; has_update = false }

abbrev idle_motors : PdoPublisher (MotorMsg ℕ)
idle_motors = record { message = empty_motor; has_update = false }

abbrev idle_valves : PdoPublisher (ValveMsg ℕ)
idle_valves = record { message = empty_valve; has_update = false }

joint_cycle_lem_example :
    (m : JointStateMsg ℕ) × Appended empty_joint_state (joint_rows {V = ℕ} offset names cycle) m
    × (run_cycle (joint_process offset names) empty_joint_state idle_joints cycle true
        ≡ ok (
            if true && not (is_empty (joint_rows {V = ℕ} offset names cycle))
            then some m
            else none))
joint_cycle_lem_example = joint_cycle_lem offset names idle_joints cycle true

motor_cycle-failed_example :
    failed (
      run_cycle
        (motor_process offset names)
        empty_motor
        idle_motors
        (received_at (sample PdoType.rx_motor 3 1) ∷ [])
        true)
    ≡ true
unfolding any_of
motor_cycle-failed_example =
    motor_cycle-failed offset names idle_motors (received_at (sample PdoType.rx_motor 3 1) ∷ [])
      true

-- A motors message and a valves message as their cycles write them.
abbrev motors_message : MotorMsg ℕ
motors_message = record {
  header = record { stamp = record { sec = pos 5; nanosec = 7 }; frame_id = [] };
  name = codes "knee" ∷ [];
  statusword = 1 ∷ [];
  modes_of_op = pos 8 ∷ [];
  motor_pos = 100 ∷ [];
  motor_vel = 2 ∷ [];
  link_pos = 100 ∷ [];
  link_vel = 3 ∷ [];
  current = 0 ∷ [];
  torque = 4 ∷ [];
  demanded_pos = 0 ∷ [];
  demanded_vel = 0 ∷ [];
  demanded_torque = 0 ∷ [];
  demanded_current = 0 ∷ [];
  control_effort = 0 ∷ [];
  motor_temp = 30 ∷ [];
  drive_temp = pos 31 ∷ [];
  error_code = 0 ∷ [];
  error_report = [] ∷ [];
  fault = 0 ∷ [];
  rtt = 0 ∷ [];
}

abbrev drive_only : List (Received Sample)
drive_only = received_at (sample PdoType.rx_cia402 3 100) ∷ []

motor_cycle-Aligned_example : MotorAligned motors_message
unfolding run_cycle begin_cycle consume_all consume end_cycle motor_process motor_converted
    motor_from_cia402 device_name resolve_name find_name header_from_pdo time_from_ns
    extract_timestamp_ns monotonic_to_realtime monotonic_now_ns to_int32 to_uint32 to_uint64
motor_cycle-Aligned_example =
    motor_cycle-Aligned offset names idle_motors drive_only true motors_message refl

abbrev pub motor_message : MotorTxPdoMsg ℕ
motor_message = record {
  ecat_id = pos 3;
  pos_ref = 1;
  vel_ref = 2;
  tor_ref = 3;
  cur_ref = 4;
  gain_0 = 5;
  gain_1 = 6;
  gain_2 = 7;
  gain_3 = 8;
  gain_4 = 9;
  fault_ack = 10;
  ts = 11;
  op_idx_aux = 12;
  aux = 13;
}

motor_pdo_from_dds-IsRouted_example :
    IsRouted motor_message
      (some PdoType.tx_xt_motor)
      (motor_pdo_from_dds motor_message PdoType.rx_xt_motor cleared)
unfolding tx_type
motor_pdo_from_dds-IsRouted_example =
    motor_pdo_from_dds-IsRouted motor_message PdoType.rx_xt_motor cleared

abbrev gains_message : GainsMsg ℕ
gains_message = record { type = 59; pos_kp = 1; pos_kd = 2; tor_kp = 3; tor_ki = 4; tor_kd = 5 }

abbrev no_gains_message : GainsMsg ℕ
no_gains_message = record { type = 0; pos_kp = 0; pos_kd = 0; tor_kp = 0; tor_ki = 0; tor_kd = 0 }

-- A request to start a motor with gains.
abbrev pub start_request : ReplCmdContentMsg ℕ
start_request = record {
  type = 2;
  header = record { stamp = record { sec = pos 5; nanosec = 6 }; frame_id = codes "gui" };
  trajectory_cmd = record {
    type = 1;
    name = codes "home";
    board_id = pos 3;
    smooth_par = record { x = 1 ∷ 2 ∷ []; y = 3 ∷ [] };
    period_par = record { freq = 1; ampl = 2; teta = 3; secs = 4 };
    homing_par = record { x = 9 ∷ [] };
    smooth_vel_par = record { dt = 1; p0 = 2; v0 = 3; pt = 4; vt = 5; ds = 6; magic = 7 };
  };
  ctrl_cmd = record { type = 11; board_id = pos 3; value = 0; gains = gains_message };
  flash_cmd = record { type = 1; board_id = pos 3 };
  ecat_master_cmd = record { type = 1; args = record { name = codes "a"; value = codes "b" } ∷ [] };
  foe_master = record {
    filename = codes "fw";
    password = 1;
    mcu_type = codes "m";
    slave_pos = pos 2;
    board_id = pos 3;
  };
  trj_queue_cmd = record { type = 1; trj_names = codes "home" ∷ [] };
  slave_sdo_cmd = record {
    board_id = pos 3;
    rd_sdo = codes "x" ∷ [];
    wr_sdo = record { name = codes "y"; value = codes "1" } ∷ [];
  };
  slave_sdo_info = record { type = 1; board_id = pos 3 };
  motors_pdo_cmd = record {
    motors_pdo =
        record {
          motor_id = pos 3;
          pos_ref = 1;
          vel_ref = 2;
          tor_ref = 3;
          gains = gains_message;
          aux_pdo = record { type = 3; idx = pos 4; value = 5 };
        }
        ∷ [];
  };
  slave_registry_write = record { type = 1; board_id = pos 3 };
  pdos_aux_cmd = record { aux_cmds = record { type = 1; board_id = pos 3 } ∷ [] };
}

repl_cmds_from_dds-message_of_example :
    map message_of (repl_cmds_from_dds (start_request ∷ start_request ∷ []) [])
    ≡ map carried (start_request ∷ start_request ∷ [])
repl_cmds_from_dds-message_of_example =
    repl_cmds_from_dds-message_of (start_request ∷ start_request ∷ []) []
      (gains_given, (gains_given, tt))
  where
    gains_given : omits_gains start_request.ctrl_cmd ≡ false
    gains_given = unfold ctrl_cmd_start in refl

-- Two devices that were discovered: a drive and an IMU without a configured name.
abbrev pub two_devices : EcatMap
two_devices =
    (
      3,
      record {
        ecat_id = 3;
        name = codes "knee";
        type = PdoType.rx_cia402;
        channel = ChannelRx.motor;
        device = DeviceTypeRx.motor;
      },
    )
    ∷ (
      8,
      record {
        ecat_id = 8;
        name = codes "imu";
        type = PdoType.rx_imu_vn;
        channel = ChannelRx.imu;
        device = DeviceTypeRx.imu;
      },
    )
    ∷ []
