-- ===== src/Converter/Received.antt =====
-- What the conversions to DDS read and write: the receive PDOs of the master (Pdos), and the state
-- messages of interfaces/advrf_interfaces_dds/idl.
pub mod Pdos
pub use Pdos.*
use ecat_middleware_advr.Prelude.{ℕ, ℤ, pos, List, [], Text}
use ecat_middleware_advr.Converter.{Number}
use ecat_middleware_advr.Converter.Messages.{HeaderMsg}

pub record Vector3Msg (V : Type 0) : Type 0 where
  pub x : V
  pub y : V
  pub z : V

pub record QuaternionMsg (V : Type 0) : Type 0 where
  pub x : V
  pub y : V
  pub z : V
  pub w : V

pub record WrenchMsg (V : Type 0) : Type 0 where
  pub force : Vector3Msg V
  pub torque : Vector3Msg V

pub record ImuMsg (V : Type 0) : Type 0 where
  pub header : HeaderMsg
  pub linear_acceleration : Vector3Msg V
  pub angular_velocity : Vector3Msg V
  pub orientation : QuaternionMsg V
  pub imu_ts : ℕ
  pub temperature : ℕ
  pub digital_in : ℕ
  pub fault : ℕ
  pub rtt : ℕ

pub record JointStateMsg (V : Type 0) : Type 0 where
  pub header : HeaderMsg
  pub name : List Text
  pub position : List V
  pub velocity : List V
  pub effort : List V

pub record MotorMsg (V : Type 0) : Type 0 where
  pub header : HeaderMsg
  pub name : List Text
  pub statusword : List ℕ
  pub modes_of_op : List ℤ
  pub motor_pos : List V
  pub motor_vel : List V
  pub link_pos : List V
  pub link_vel : List V
  pub current : List V
  pub torque : List V
  pub demanded_pos : List V
  pub demanded_vel : List V
  pub demanded_torque : List V
  pub demanded_current : List V
  pub control_effort : List V
  pub motor_temp : List V
  pub drive_temp : List ℤ
  pub error_code : List ℕ
  pub error_report : List Text
  pub fault : List ℕ
  pub rtt : List ℕ

pub record ValveMsg (V : Type 0) : Type 0 where
  pub header : HeaderMsg
  pub name : List Text
  pub encoder_position : List V
  pub force : List V
  pub pressure1 : List V
  pub pressure2 : List V
  pub current : List V
  pub temperature : List V
  pub fault : List ℕ
  pub rtt : List ℕ
  pub op_idx_ack : List ℕ
  pub aux : List V
  pub current_ref_fb : List V
  pub position_ref_fb : List V
  pub force_ref_fb : List V

pub record GripperMsg (V : Type 0) : Type 0 where
  pub header : HeaderMsg
  pub name : List Text
  pub statusword : List ℕ
  pub motor_pos : List V
  pub link_pos : List V
  pub demanded_pos : List V
  pub demanded_vel : List V
  pub error_code : List ℕ

pub record PumpMsg (V : Type 0) : Type 0 where
  pub header : HeaderMsg
  pub name : Text
  pub motor_current : V
  pub motor_speed : V
  pub pressure1 : V
  pub pressure2 : V
  pub temperature : ℕ
  pub mosfet_temperature : ℕ
  pub motor_temperature : ℤ
  pub fault : ℕ
  pub rtt : ℕ
  pub op_idx_ack : ℕ
  pub aux : V

pub record PowerBoardMsg (V : Type 0) : Type 0 where
  pub header : HeaderMsg
  pub v_batt : V
  pub v_load : V
  pub i_load : V
  pub temperature : V
  pub temp_batt : V
  pub temp_heatsink : V
  pub status : ℕ
  pub fault : ℕ
  pub rtt : ℕ
  pub op_idx_ack : ℕ
  pub aux : V

pub record ForceTorqueMsg (V : Type 0) : Type 0 where
  pub header : HeaderMsg
  pub wrench : WrenchMsg V
  pub fault : ℕ
  pub rtt : ℕ
  pub op_idx_ack : ℕ
  pub aux : V

abbrev pub default_header : HeaderMsg
default_header = record { stamp = record { sec = pos 0; nanosec = 0 }; frame_id = [] }

-- The empty messages that a cycle starts with.
module _ {V : Type 0} ⦃n : Number V⦄ where
  abbrev zero_vector : Vector3Msg V
  zero_vector = record { x = n.zero_value; y = n.zero_value; z = n.zero_value }

  abbrev pub empty_imu : ImuMsg V
  empty_imu = record {
    header = default_header;
    linear_acceleration = zero_vector;
    angular_velocity = zero_vector;
    orientation = record { x = n.zero_value; y = n.zero_value; z = n.zero_value; w = n.zero_value };
    imu_ts = 0;
    temperature = 0;
    digital_in = 0;
    fault = 0;
    rtt = 0;
  }

  abbrev pub empty_pump : PumpMsg V
  empty_pump = record {
    header = default_header;
    name = [];
    motor_current = n.zero_value;
    motor_speed = n.zero_value;
    pressure1 = n.zero_value;
    pressure2 = n.zero_value;
    temperature = 0;
    mosfet_temperature = 0;
    motor_temperature = pos 0;
    fault = 0;
    rtt = 0;
    op_idx_ack = 0;
    aux = n.zero_value;
  }

  abbrev pub empty_power_board : PowerBoardMsg V
  empty_power_board = record {
    header = default_header;
    v_batt = n.zero_value;
    v_load = n.zero_value;
    i_load = n.zero_value;
    temperature = n.zero_value;
    temp_batt = n.zero_value;
    temp_heatsink = n.zero_value;
    status = 0;
    fault = 0;
    rtt = 0;
    op_idx_ack = 0;
    aux = n.zero_value;
  }

  abbrev pub empty_force_torque : ForceTorqueMsg V
  empty_force_torque = record {
    header = default_header;
    wrench = record { force = zero_vector; torque = zero_vector };
    fault = 0;
    rtt = 0;
    op_idx_ack = 0;
    aux = n.zero_value;
  }

module _ {V : Type 0} where
  abbrev pub empty_joint_state : JointStateMsg V
  empty_joint_state = record {
    header = default_header;
    name = [];
    position = [];
    velocity = [];
    effort = [];
  }

  abbrev pub empty_motor : MotorMsg V
  empty_motor = record {
    header = default_header;
    name = [];
    statusword = [];
    modes_of_op = [];
    motor_pos = [];
    motor_vel = [];
    link_pos = [];
    link_vel = [];
    current = [];
    torque = [];
    demanded_pos = [];
    demanded_vel = [];
    demanded_torque = [];
    demanded_current = [];
    control_effort = [];
    motor_temp = [];
    drive_temp = [];
    error_code = [];
    error_report = [];
    fault = [];
    rtt = [];
  }

  abbrev pub empty_valve : ValveMsg V
  empty_valve = record {
    header = default_header;
    name = [];
    encoder_position = [];
    force = [];
    pressure1 = [];
    pressure2 = [];
    current = [];
    temperature = [];
    fault = [];
    rtt = [];
    op_idx_ack = [];
    aux = [];
    current_ref_fb = [];
    position_ref_fb = [];
    force_ref_fb = [];
  }

  abbrev pub empty_gripper : GripperMsg V
  empty_gripper = record {
    header = default_header;
    name = [];
    statusword = [];
    motor_pos = [];
    link_pos = [];
    demanded_pos = [];
    demanded_vel = [];
    error_code = [];
  }
