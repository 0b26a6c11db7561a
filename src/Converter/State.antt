-- ===== src/Converter/State.antt =====
-- `from_protobuf` of src/converter.cpp in plugins/advrf_dds_common: received PDOs and replies, written
-- into DDS messages. A message that collects several devices gets one entry more in each sequence.
use ecat_middleware_advr.Prelude.{
  ℕ, ℤ, ◌+◌, ◌*◌, ◌/◌, ◌%◌, ◌<◌, ◌≡◌, arith, to_int32_small, Bool, if◌then◌else◌, [], Text, Result,
  err, pos, to_uint32, to_int32, u32_mod, ◌==◌,
}
use ecat_middleware_advr.Pdo.{PdoMessage}
use ecat_middleware_advr.Pdo.Clock.{ClockOffset, Timespec, extract_timestamp_ns}
use ecat_middleware_advr.Converter.{Number, push_back}
use ecat_middleware_advr.Converter.Messages.{TimeMsg, HeaderMsg}
use ecat_middleware_advr.Converter.Received.{
  ImuVnRxPdo, Cia402RxPdo, MotorXtRxPdo, MotorRxPdo, HyqKneeRxPdo, HyqHpuRxPdo, GripperRxPdo,
  PowF28m36RxPdo, Ft6RxPdo, ImuMsg, JointStateMsg, MotorMsg, ValveMsg, GripperMsg, PumpMsg,
  PowerBoardMsg, ForceTorqueMsg,
}

-- The two casts keep the low 32 bits.
unfoldable pub time_from_ns : ℕ → TimeMsg
time_from_ns timestamp_ns = record {
  sec = to_int32 (timestamp_ns / 1000000000);
  nanosec = (timestamp_ns % 1000000000) % u32_mod;
}

unfoldable pub header_from_pdo :
    {Pdo : Type 0} ⦃m : PdoMessage Pdo⦄ → ClockOffset → Timespec → Pdo → HeaderMsg
header_from_pdo ⦃m⦄ g_offset now pdo = record {
  frame_id = if m.has_header pdo then m.str_id pdo else [];
  stamp = time_from_ns (extract_timestamp_ns g_offset now pdo);
}

-- `std::string` built from the null pointer: what `push_back(0)` asks of a sequence of strings. The
-- standard leaves it undefined and the usual libraries throw.
pub data NullString : Type 0 where
  null_string : NullString

module _ {V : Type 0} ⦃n : Number V⦄ where
  unfoldable pub imu_from_protobuf : ImuVnRxPdo V → ImuMsg V → ImuMsg V
  imu_from_protobuf p m = record m {
    linear_acceleration = record { x = p.x_acc; y = p.y_acc; z = p.z_acc };
    angular_velocity = record { x = p.x_rate; y = p.y_rate; z = p.z_rate };
    orientation = record { x = p.x_quat; y = p.y_quat; z = p.z_quat; w = p.w_quat };
    imu_ts = p.imu_ts;
    temperature = p.temperature;
    digital_in = p.digital_in;
    fault = p.fault;
    rtt = p.rtt;
  }

  unfoldable pub joint_from_cia402 : Cia402RxPdo V → JointStateMsg V → JointStateMsg V
  joint_from_cia402 p m = record m {
    position = push_back m.position p.link_pos;
    velocity = push_back m.velocity p.link_vel;
    effort = push_back m.effort p.torque;
  }

  unfoldable pub joint_from_xt_motor : MotorXtRxPdo V → JointStateMsg V → JointStateMsg V
  joint_from_xt_motor p m = record m {
    position = push_back m.position p.link_pos;
    velocity = push_back m.velocity p.link_vel;
    effort = push_back m.effort p.torque;
  }

  unfoldable pub joint_from_motor : MotorRxPdo V → JointStateMsg V → JointStateMsg V
  joint_from_motor p m = record m {
    position = push_back m.position p.link_pos;
    velocity = push_back m.velocity n.zero_value;
    effort = push_back m.effort (n.to_float p.torque);
  }

  unfoldable pub joint_from_hyq_knee : HyqKneeRxPdo V → JointStateMsg V → JointStateMsg V
  joint_from_hyq_knee p m = record m {
    position = push_back m.position n.zero_value;
    velocity = push_back m.velocity n.zero_value;
    effort = push_back m.effort p.force;
  }

  unfoldable pub joint_from_gripper : GripperRxPdo V → JointStateMsg V → JointStateMsg V
  joint_from_gripper p m = record m {
    position = push_back m.position p.link_pos;
    velocity = push_back m.velocity n.zero_value;
    effort = push_back m.effort n.zero_value;
  }

  unfoldable pub motor_from_cia402 : Cia402RxPdo V → MotorMsg V → MotorMsg V
  motor_from_cia402 p m = record m {
    statusword = push_back m.statusword p.statusword;
    modes_of_op = push_back m.modes_of_op p.modes_of_op;
    motor_pos = push_back m.motor_pos p.motor_pos;
    motor_vel = push_back m.motor_vel p.motor_vel;
    link_pos = push_back m.link_pos p.link_pos;
    link_vel = push_back m.link_vel p.link_vel;
    current = push_back m.current p.current;
    torque = push_back m.torque p.torque;
    demanded_pos = push_back m.demanded_pos p.demanded_pos;
    demanded_vel = push_back m.demanded_vel p.demanded_vel;
    demanded_torque = push_back m.demanded_torque p.demanded_torque;
    demanded_current = push_back m.demanded_current p.demanded_current;
    control_effort = push_back m.control_effort p.control_effort;
    motor_temp = push_back m.motor_temp p.motor_temp;
    drive_temp = push_back m.drive_temp p.drive_temp;
    error_code = push_back m.error_code p.error_code;
    error_report = push_back m.error_report p.error_report;
    fault = push_back m.fault 0;
    rtt = push_back m.rtt 0;
  }

  -- The default of `error_report` is the last `push_back` of both functions: it does not return.
  unfoldable pub push_null_string : MotorMsg V → Result NullString (MotorMsg V)
  push_null_string m = err null_string

  unfoldable pub motor_from_xt_motor_before_report : MotorXtRxPdo V → MotorMsg V → MotorMsg V
  motor_from_xt_motor_before_report p m = record m {
    motor_pos = push_back m.motor_pos p.motor_pos;
    link_pos = push_back m.link_pos p.link_pos;
    motor_vel = push_back m.motor_vel p.motor_vel;
    link_vel = push_back m.link_vel p.link_vel;
    torque = push_back m.torque p.torque;
    motor_temp = push_back m.motor_temp p.motor_temp;
    fault = push_back m.fault p.fault;
    rtt = push_back m.rtt p.rtt;
    statusword = push_back m.statusword 0;
    modes_of_op = push_back m.modes_of_op (pos 0);
    current = push_back m.current n.zero_value;
    demanded_pos = push_back m.demanded_pos n.zero_value;
    demanded_vel = push_back m.demanded_vel n.zero_value;
    demanded_torque = push_back m.demanded_torque n.zero_value;
    demanded_current = push_back m.demanded_current n.zero_value;
    control_effort = push_back m.control_effort n.zero_value;
    drive_temp = push_back m.drive_temp (pos 0);
    error_code = push_back m.error_code 0;
  }

  unfoldable pub motor_from_xt_motor : MotorXtRxPdo V → MotorMsg V → Result NullString (MotorMsg V)
  motor_from_xt_motor p m = push_null_string (motor_from_xt_motor_before_report p m)

  unfoldable pub motor_from_motor_before_report : MotorRxPdo V → MotorMsg V → MotorMsg V
  motor_from_motor_before_report p m = record m {
    motor_pos = push_back m.motor_pos p.motor_pos;
    link_pos = push_back m.link_pos p.link_pos;
    torque = push_back m.torque (n.to_float p.torque);
    fault = push_back m.fault p.fault;
    rtt = push_back m.rtt p.rtt;
    statusword = push_back m.statusword 0;
    modes_of_op = push_back m.modes_of_op (pos 0);
    motor_vel = push_back m.motor_vel n.zero_value;
    link_vel = push_back m.link_vel n.zero_value;
    current = push_back m.current n.zero_value;
    demanded_pos = push_back m.demanded_pos n.zero_value;
    demanded_vel = push_back m.demanded_vel n.zero_value;
    demanded_torque = push_back m.demanded_torque n.zero_value;
    demanded_current = push_back m.demanded_current n.zero_value;
    control_effort = push_back m.control_effort n.zero_value;
    motor_temp = push_back m.motor_temp n.zero_value;
    drive_temp = push_back m.drive_temp (pos 0);
    error_code = push_back m.error_code 0;
  }

  unfoldable pub motor_from_motor : MotorRxPdo V → MotorMsg V → Result NullString (MotorMsg V)
  motor_from_motor p m = push_null_string (motor_from_motor_before_report p m)

  unfoldable pub valve_from_protobuf : HyqKneeRxPdo V → ValveMsg V → ValveMsg V
  valve_from_protobuf p m = record m {
    force = push_back m.force p.force;
    pressure1 = push_back m.pressure1 p.pressure_1;
    pressure2 = push_back m.pressure2 p.pressure_2;
    encoder_position = push_back m.encoder_position p.encoder_position;
    current = push_back m.current p.current;
    temperature = push_back m.temperature p.temperature;
    fault = push_back m.fault p.fault;
    rtt = push_back m.rtt p.rtt;
    op_idx_ack = push_back m.op_idx_ack p.op_idx_ack;
    aux = push_back m.aux p.aux;
    current_ref_fb = push_back m.current_ref_fb p.current_ref_fb;
    position_ref_fb = push_back m.position_ref_fb p.position_ref_fb;
    force_ref_fb = push_back m.force_ref_fb p.force_ref_fb;
  }

  unfoldable pub pump_from_protobuf : HyqHpuRxPdo V → PumpMsg V → PumpMsg V
  pump_from_protobuf p m = record m {
    motor_current = p.motor_current;
    motor_speed = p.motor_speed;
    pressure1 = p.pressure1;
    pressure2 = p.pressure2;
    temperature = p.temperature;
    mosfet_temperature = p.mosfet_temperature;
    motor_temperature = p.motor_temperature;
    fault = p.fault;
    rtt = p.rtt;
    op_idx_ack = p.op_idx_ack;
    aux = p.aux;
  }

  unfoldable pub gripper_from_protobuf : GripperRxPdo V → GripperMsg V → GripperMsg V
  gripper_from_protobuf p m = record m {
    statusword = push_back m.statusword p.statusword;
    motor_pos = push_back m.motor_pos p.motor_pos;
    link_pos = push_back m.link_pos p.link_pos;
    demanded_pos = push_back m.demanded_pos p.demanded_pos;
    demanded_vel = push_back m.demanded_vel p.demanded_vel;
    error_code = push_back m.error_code p.error_code;
  }

  unfoldable pub power_board_from_protobuf : PowF28m36RxPdo V → PowerBoardMsg V → PowerBoardMsg V
  power_board_from_protobuf p m = record m {
    v_batt = p.v_batt;
    v_load = p.v_load;
    i_load = p.i_load;
    temperature = p.temp_pcb;
    temp_heatsink = p.temp_heatsink;
    temp_batt = p.temp_batt;
    status = p.status;
    fault = p.fault;
    rtt = to_uint32 p.rtt;
    op_idx_ack = p.op_idx_ack;
    aux = p.aux;
  }

  unfoldable pub force_torque_from_protobuf : Ft6RxPdo V → ForceTorqueMsg V → ForceTorqueMsg V
  force_torque_from_protobuf p m = record m {
    wrench = record {
      force = record { x = p.force_x; y = p.force_y; z = p.force_z };
      torque = record { x = p.torque_x; y = p.torque_y; z = p.torque_z };
    };
    fault = p.fault;
    rtt = p.rtt;
    op_idx_ack = p.op_idx_ack;
    aux = p.aux;
  }

-- The accessors of a reply of the master. `ack` is `Cmd_reply::ACK`.
pub record CmdReply (Reply : Type 0) : Type 0 where
  pub type : Reply → ℕ
  pub ack : ℕ
  pub msg : Reply → Text
  pub str_id : Reply → Text
  pub sec : Reply → ℤ
  pub nsec : Reply → ℕ
  pub pdo : Reply → Text

pub record ReplCmdResponseMsg : Type 0 where
  pub header : HeaderMsg
  pub type : ℕ
  pub success : Bool
  pub msg : Text
  pub pdo : Text

-- The response, with `uint8_t` for the type.
unfoldable pub response_from_reply :
    {Reply : Type 0} ⦃r : CmdReply Reply⦄ → Reply → ReplCmdResponseMsg
response_from_reply ⦃r⦄ reply = record {
  header = record {
    frame_id = r.str_id reply;
    stamp = record { sec = r.sec reply; nanosec = r.nsec reply };
  };
  type = r.type reply % 256;
  success = r.type reply == r.ack;
  msg = r.msg reply;
  pdo = r.pdo reply;
}

-- Seconds and nanoseconds of a time below 2^31 seconds make up the time, and the nanoseconds are less
-- than a second.
pub time_from_ns_lem :
    (ts : ℕ)
    → ts < 2147483648 * 1000000000
    → (sec : ℕ) × ((time_from_ns ts).sec ≡ pos sec)
      × (sec * 1000000000 + (time_from_ns ts).nanosec ≡ ts)
      × ((time_from_ns ts).nanosec < 1000000000)
unfolding time_from_ns
time_from_ns_lem ts h =
    (ts / 1000000000, to_int32_small (ts / 1000000000) (omega arith), omega arith, omega arith)
