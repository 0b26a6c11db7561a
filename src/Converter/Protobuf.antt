-- ===== src/Converter/Protobuf.antt =====
-- The protobuf messages of the master, as the conversions see them: the fields that they set. The
-- schema is not in the repository; a message field is optional, and a repeated field keeps its order.
-- An enumeration is the number that `static_cast` gives.
use ecat_middleware_advr.Prelude.{ℕ, ℤ, List, [], Option, none, Text}
use ecat_middleware_advr.Converter.{Number}

pub record Time : Type 0 where
  pub sec : ℤ
  pub nsec : ℕ

pub record Header : Type 0 where
  pub str_id : Text
  pub stamp : Option Time

pub record Gains (V : Type 0) : Type 0 where
  pub type : ℕ
  pub pos_kp : V
  pub pos_kd : V
  pub tor_kp : V
  pub tor_ki : V
  pub tor_kd : V

pub record SmoothPar (V : Type 0) : Type 0 where
  pub x : List V
  pub y : List V

pub record PeriodPar (V : Type 0) : Type 0 where
  pub freq : V
  pub ampl : V
  pub teta : V
  pub secs : V

pub record HomingPar (V : Type 0) : Type 0 where
  pub x : List V

pub record SmoothVelPar (V : Type 0) : Type 0 where
  pub dt : V
  pub p0 : V
  pub v0 : V
  pub pt : V
  pub vt : V
  pub ds : V
  pub magic : V

pub record TrajectoryCmd (V : Type 0) : Type 0 where
  pub type : ℕ
  pub name : Text
  pub board_id : ℤ
  pub smooth_par : Option (SmoothPar V)
  pub period_par : Option (PeriodPar V)
  pub homing_par : Option (HomingPar V)
  pub smooth_vel_par : Option (SmoothVelPar V)

pub record CtrlCmd (V : Type 0) : Type 0 where
  pub type : ℕ
  pub board_id : ℤ
  pub value : V
  pub gains : Option (Gains V)

pub record FlashCmd : Type 0 where
  pub type : ℕ
  pub board_id : ℤ

pub record KeyVal : Type 0 where
  pub name : Text
  pub value : Text

pub record EcatMasterCmd : Type 0 where
  pub type : ℕ
  pub args : List KeyVal

pub record FoeMaster : Type 0 where
  pub filename : Text
  pub password : ℕ
  pub mcu_type : Text
  pub slave_pos : ℤ
  pub board_id : ℤ

pub record TrjQueueCmd : Type 0 where
  pub type : ℕ
  pub trj_names : List Text

pub record SlaveSdoCmd : Type 0 where
  pub board_id : ℤ
  pub rd_sdo : List Text
  pub wr_sdo : List KeyVal

pub record SlaveSdoInfo : Type 0 where
  pub type : ℕ
  pub board_id : ℤ

pub record MotorPdoCmd (V : Type 0) : Type 0 where
  pub motor_id : ℤ
  pub pos_ref : V
  pub vel_ref : V
  pub tor_ref : V
  pub gains : Option (Gains V)

pub record MotorsPdoCmd (V : Type 0) : Type 0 where
  pub motors_pdo : List (MotorPdoCmd V)

pub record SlaveRegistryWrite : Type 0 where
  pub type : ℕ
  pub board_id : ℤ

pub record AuxCmd : Type 0 where
  pub type : ℕ
  pub board_id : ℤ

pub record PdosAuxCmd : Type 0 where
  pub aux_cmds : List AuxCmd

pub record ReplCmd (V : Type 0) : Type 0 where
  pub type : ℕ
  pub trajectory_cmd : Option (TrajectoryCmd V)
  pub ctrl_cmd : Option (CtrlCmd V)
  pub flash_cmd : Option FlashCmd
  pub ecat_master_cmd : Option EcatMasterCmd
  pub foe_master : Option FoeMaster
  pub trj_queue_cmd : Option TrjQueueCmd
  pub slave_sdo_cmd : Option SlaveSdoCmd
  pub slave_sdo_info : Option SlaveSdoInfo
  pub motors_pdo_cmd : Option (MotorsPdoCmd V)
  pub slave_registry_write : Option SlaveRegistryWrite
  pub pdos_aux_cmd : Option PdosAuxCmd

-- The default messages: no field set.
module _ {V : Type 0} ⦃n : Number V⦄ where
  abbrev pub default_gains : Gains V
  default_gains = record {
    type = 0;
    pos_kp = n.zero_value;
    pos_kd = n.zero_value;
    tor_kp = n.zero_value;
    tor_ki = n.zero_value;
    tor_kd = n.zero_value;
  }

  abbrev pub default_smooth_par : SmoothPar V
  default_smooth_par = record { x = []; y = [] }

  abbrev pub default_period_par : PeriodPar V
  default_period_par = record {
    freq = n.zero_value;
    ampl = n.zero_value;
    teta = n.zero_value;
    secs = n.zero_value;
  }

  abbrev pub default_homing_par : HomingPar V
  default_homing_par = record { x = [] }

  abbrev pub default_smooth_vel_par : SmoothVelPar V
  default_smooth_vel_par = record {
    dt = n.zero_value;
    p0 = n.zero_value;
    v0 = n.zero_value;
    pt = n.zero_value;
    vt = n.zero_value;
    ds = n.zero_value;
    magic = n.zero_value;
  }

  abbrev pub default_trajectory_cmd : TrajectoryCmd V
  default_trajectory_cmd = record {
    type = 0;
    name = [];
    board_id = ℤ.pos 0;
    smooth_par = none;
    period_par = none;
    homing_par = none;
    smooth_vel_par = none;
  }

  abbrev pub default_ctrl_cmd : CtrlCmd V
  default_ctrl_cmd = record { type = 0; board_id = ℤ.pos 0; value = n.zero_value; gains = none }

  abbrev pub default_motor_pdo_cmd : MotorPdoCmd V
  default_motor_pdo_cmd = record {
    motor_id = ℤ.pos 0;
    pos_ref = n.zero_value;
    vel_ref = n.zero_value;
    tor_ref = n.zero_value;
    gains = none;
  }

  abbrev pub default_motors_pdo_cmd : MotorsPdoCmd V
  default_motors_pdo_cmd = record { motors_pdo = [] }

  abbrev pub default_repl_cmd : ReplCmd V
  default_repl_cmd = record {
    type = 0;
    trajectory_cmd = none;
    ctrl_cmd = none;
    flash_cmd = none;
    ecat_master_cmd = none;
    foe_master = none;
    trj_queue_cmd = none;
    slave_sdo_cmd = none;
    slave_sdo_info = none;
    motors_pdo_cmd = none;
    slave_registry_write = none;
    pdos_aux_cmd = none;
  }

abbrev pub default_time : Time
default_time = record { sec = ℤ.pos 0; nsec = 0 }

abbrev pub default_header : Header
default_header = record { str_id = []; stamp = none }

abbrev pub default_flash_cmd : FlashCmd
default_flash_cmd = record { type = 0; board_id = ℤ.pos 0 }

abbrev pub default_ecat_master_cmd : EcatMasterCmd
default_ecat_master_cmd = record { type = 0; args = [] }

abbrev pub default_foe_master : FoeMaster
default_foe_master = record {
  filename = [];
  password = 0;
  mcu_type = [];
  slave_pos = ℤ.pos 0;
  board_id = ℤ.pos 0;
}

abbrev pub default_trj_queue_cmd : TrjQueueCmd
default_trj_queue_cmd = record { type = 0; trj_names = [] }

abbrev pub default_slave_sdo_cmd : SlaveSdoCmd
default_slave_sdo_cmd = record { board_id = ℤ.pos 0; rd_sdo = []; wr_sdo = [] }

abbrev pub default_slave_sdo_info : SlaveSdoInfo
default_slave_sdo_info = record { type = 0; board_id = ℤ.pos 0 }

abbrev pub default_slave_registry_write : SlaveRegistryWrite
default_slave_registry_write = record { type = 0; board_id = ℤ.pos 0 }

abbrev pub default_pdos_aux_cmd : PdosAuxCmd
default_pdos_aux_cmd = record { aux_cmds = [] }
