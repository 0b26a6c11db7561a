-- ===== src/Examples/Samples.antt =====
-- Concrete PDOs, messages and YAML documents for the examples.
use ecat_middleware_advr.Prelude.{
  ℕ, ℤ, pos, ◌≡◌, refl, ◌+◌, Bool, true, false, List, [], ◌∷◌, Option, none, some, Text, codes,
  text_eq, text_eq_refl, if◌then◌else◌, Result, ok, err,
}
use ecat_middleware_advr.Pdo.{PdoType, PdoMessage}
use ecat_middleware_advr.Pdo.Clock.{Timespec}
use ecat_middleware_advr.Converter.{Number}
use ecat_middleware_advr.Converter.Received.{PdoPayloads}
use ecat_middleware_advr.Config.Yaml.{Yaml}

-- A PDO with a number for each of its readings.
pub record Sample : Type 0 where
  pub sample_type : PdoType
  pub sample_index : Option ℤ
  pub reading : ℕ

abbrev given : Option ℤ → Bool
given none = false
given (some z) = true

abbrev or_zero : Option ℤ → ℤ
or_zero none = pos 0
or_zero (some z) = z

instance abbrev pub sample_message : PdoMessage Sample
sample_message = record {
  pdo_type = λ s. s.sample_type;
  has_header = λ s. true;
  has_index = λ s. given s.sample_index;
  index = λ s. or_zero s.sample_index;
  has_str_id = λ s. false;
  str_id = λ s. [];
  has_stamp = λ s. true;
  sec = λ s. pos 5;
  nsec = λ s. pos 7;
}

instance abbrev pub number : Number ℕ
number = record { zero_value = 0; to_float = λ v. v }

instance abbrev pub sample_payloads : PdoPayloads Sample ℕ
sample_payloads = record {
  imuvn_rx_pdo = λ s. record {
    x_acc = s.reading;
    y_acc = 0;
    z_acc = 0;
    x_rate = 0;
    y_rate = 0;
    z_rate = 0;
    x_quat = 0;
    y_quat = 0;
    z_quat = 0;
    w_quat = 1;
    imu_ts = 0;
    temperature = 0;
    digital_in = 0;
    fault = 0;
    rtt = 0;
  };
  cia402_rx_pdo = λ s. record {
    statusword = 1;
    modes_of_op = pos 8;
    motor_pos = s.reading;
    motor_vel = 2;
    link_pos = s.reading;
    link_vel = 3;
    current = 0;
    torque = 4;
    demanded_pos = 0;
    demanded_vel = 0;
    demanded_torque = 0;
    demanded_current = 0;
    control_effort = 0;
    motor_temp = 30;
    drive_temp = pos 31;
    error_code = 0;
    error_report = [];
  };
  motor_xt_rx_pdo = λ s. record {
    motor_pos = s.reading;
    link_pos = s.reading;
    motor_vel = 0;
    link_vel = 0;
    torque = 1;
    motor_temp = 30;
    fault = 0;
    rtt = 0;
  };
  motor_rx_pdo =
      λ s. record { motor_pos = s.reading; link_pos = s.reading; torque = 1; fault = 0; rtt = 0 };
  hyqknee_rx_pdo = λ s. record {
    force = s.reading;
    pressure_1 = 1;
    pressure_2 = 2;
    encoder_position = 3;
    current = 4;
    temperature = 5;
    fault = 0;
    rtt = 0;
    op_idx_ack = 0;
    aux = 0;
    current_ref_fb = 0;
    position_ref_fb = 0;
    force_ref_fb = 0;
  };
  hyqhpu_rx_pdo = λ s. record {
    motor_current = s.reading;
    motor_speed = 0;
    pressure1 = 0;
    pressure2 = 0;
    temperature = 0;
    mosfet_temperature = 0;
    motor_temperature = pos 0;
    fault = 0;
    rtt = 0;
    op_idx_ack = 0;
    aux = 0;
  };
  gripper_rx_pdo = λ s. record {
    statusword = 1;
    motor_pos = s.reading;
    link_pos = s.reading;
    demanded_pos = 0;
    demanded_vel = 0;
    error_code = 0;
  };
  powf28m36_rx_pdo = λ s. record {
    v_batt = s.reading;
    v_load = 0;
    i_load = 0;
    temp_pcb = 0;
    temp_heatsink = 0;
    temp_batt = 0;
    status = 0;
    fault = 0;
    rtt = pos 0;
    op_idx_ack = 0;
    aux = 0;
  };
  ft6_rx_pdo = λ s. record {
    force_x = s.reading;
    force_y = 0;
    force_z = 0;
    torque_x = 0;
    torque_y = 0;
    torque_z = 0;
    fault = 0;
    rtt = 0;
    op_idx_ack = 0;
    aux = 0;
  };
}

abbrev pub sample : PdoType → ℕ → ℕ → Sample
sample t id reading = record { sample_type = t; sample_index = some (pos id); reading = reading }

abbrev pub clock_time : ℕ → ℕ → Timespec
clock_time sec nsec = record { tv_sec = pos sec; tv_nsec = pos nsec }

-- YAML documents: a scalar, or a mapping as the list of its pairs.
pub data Document : Type 0 where
  scalar : Text → Document
  empty : Document
  pair : Text → Document → Document → Document

abbrev pub get_in : Document → Text → Option Document
get_in (Document.scalar text) key = none
get_in Document.empty key = none
get_in (Document.pair name value rest) key =
    let later = get_in rest key in if text_eq name key then some value else later

abbrev pub pairs_of : Document → List (Document × Document)
pairs_of (Document.pair name value rest) = (Document.scalar name, value) ∷ pairs_of rest
pairs_of _ = []

abbrev size_of : Document → ℕ
size_of (Document.pair name value rest) = size_of rest + 1
size_of _ = 0

abbrev is_mapping : Document → Bool
is_mapping (Document.scalar text) = false
is_mapping _ = true

abbrev is_text : Document → Bool
is_text (Document.scalar text) = true
is_text _ = false

abbrev text_of : Document → Result Text Text
text_of (Document.scalar text) = ok text
text_of _ = err (codes "bad conversion")

abbrev flag_of : Document → Result Text Bool
flag_of (Document.scalar text) = if text_eq text (codes "true") then ok true else ok false
flag_of _ = err (codes "bad conversion")

abbrev single_pair : Text → Text → Document
single_pair key text = Document.pair key (Document.scalar text) Document.empty

pub single_pair-get :
    (key text : Text) → get_in (single_pair key text) key ≡ some (Document.scalar text)
single_pair-get key text = rw (text_eq_refl key) refl

abbrev pub documents : Yaml
documents = record {
  Node = Document;
  get = get_in;
  is_map = is_mapping;
  is_scalar = is_text;
  entries = pairs_of;
  size = size_of;
  as_string = text_of;
  as_bool = flag_of;
  empty_map = Document.empty;
  single = single_pair;
  get-single = λ key text. (Document.scalar text, single_pair-get key text, refl);
}

-- The file of a robot with two devices.
abbrev pub robot_file : Document
robot_file =
    Document.pair (codes "robot")
      (Document.pair (codes "name") (Document.scalar (codes "kyon")) (
        Document.pair (codes "joint_map")
          (Document.pair (codes "1") (Document.scalar (codes "knee"))
            (Document.pair (codes "2") (Document.scalar (codes "hip")) Document.empty))
          Document.empty))
      Document.empty
