-- ===== src/Converter/Messages.antt =====
-- The messages of the DDS interface that carry commands, one record per structure of the IDL files, and
-- its time and header.
use ecat_middleware_advr.Prelude.{ℕ, ℤ, List, Text}

pub record TimeMsg : Type 0 where
  pub sec : ℤ
  pub nanosec : ℕ

pub record HeaderMsg : Type 0 where
  pub stamp : TimeMsg
  pub frame_id : Text

pub record GainsMsg (V : Type 0) : Type 0 where
  pub type : ℕ
  pub pos_kp : V
  pub pos_kd : V
  pub tor_kp : V
  pub tor_ki : V
  pub tor_kd : V

pub record SmoothParMsg (V : Type 0) : Type 0 where
  pub x : List V
  pub y : List V

pub record PeriodParMsg (V : Type 0) : Type 0 where
  pub freq : V
  pub ampl : V
  pub teta : V
  pub secs : V

pub record HomingParMsg (V : Type 0) : Type 0 where
  pub x : List V

pub record SmoothVelParMsg (V : Type 0) : Type 0 where
  pub dt : V
  pub p0 : V
  pub v0 : V
  pub pt : V
  pub vt : V
  pub ds : V
  pub magic : V

pub record TrajectoryCmdMsg (V : Type 0) : Type 0 where
  pub type : ℕ
  pub name : Text
  pub board_id : ℤ
  pub smooth_par : SmoothParMsg V
  pub period_par : PeriodParMsg V
  pub homing_par : HomingParMsg V
  pub smooth_vel_par : SmoothVelParMsg V

pub record CtrlCmdMsg (V : Type 0) : Type 0 where
  pub type : ℕ
  pub board_id : ℤ
  pub value : V
  pub gains : GainsMsg V

pub record FlashCmdMsg : Type 0 where
  pub type : ℕ
  pub board_id : ℤ

pub record KeyValStrMsg : Type 0 where
  pub name : Text
  pub value : Text

pub record EcatMasterCmdMsg : Type 0 where
  pub type : ℕ
  pub args : List KeyValStrMsg

pub record FoeMasterMsg : Type 0 where
  pub filename : Text
  pub password : ℕ
  pub mcu_type : Text
  pub slave_pos : ℤ
  pub board_id : ℤ

pub record TrjQueueCmdMsg : Type 0 where
  pub type : ℕ
  pub trj_names : List Text

pub record SlaveSdoCmdMsg : Type 0 where
  pub board_id : ℤ
  pub rd_sdo : List Text
  pub wr_sdo : List KeyValStrMsg

pub record SlaveSdoInfoMsg : Type 0 where
  pub type : ℕ
  pub board_id : ℤ

pub record AuxPdoMsg (V : Type 0) : Type 0 where
  pub type : ℕ
  pub idx : ℤ
  pub value : V

pub record MotorPdoCmdMsg (V : Type 0) : Type 0 where
  pub motor_id : ℤ
  pub pos_ref : V
  pub vel_ref : V
  pub tor_ref : V
  pub gains : GainsMsg V
  pub aux_pdo : AuxPdoMsg V

pub record MotorsPdoCmdMsg (V : Type 0) : Type 0 where
  pub motors_pdo : List (MotorPdoCmdMsg V)

pub record SlaveRegistryWriteMsg : Type 0 where
  pub type : ℕ
  pub board_id : ℤ

pub record AuxCmdMsg : Type 0 where
  pub type : ℕ
  pub board_id : ℤ

pub record PdoAuxCmdMsg : Type 0 where
  pub aux_cmds : List AuxCmdMsg

pub record ReplCmdContentMsg (V : Type 0) : Type 0 where
  pub type : ℕ
  pub header : HeaderMsg
  pub trajectory_cmd : TrajectoryCmdMsg V
  pub ctrl_cmd : CtrlCmdMsg V
  pub flash_cmd : FlashCmdMsg
  pub ecat_master_cmd : EcatMasterCmdMsg
  pub foe_master : FoeMasterMsg
  pub trj_queue_cmd : TrjQueueCmdMsg
  pub slave_sdo_cmd : SlaveSdoCmdMsg
  pub slave_sdo_info : SlaveSdoInfoMsg
  pub motors_pdo_cmd : MotorsPdoCmdMsg V
  pub slave_registry_write : SlaveRegistryWriteMsg
  pub pdos_aux_cmd : PdoAuxCmdMsg

pub record MotorTxPdoMsg (V : Type 0) : Type 0 where
  pub ecat_id : ℤ
  pub pos_ref : V
  pub vel_ref : V
  pub tor_ref : V
  pub cur_ref : V
  pub gain_0 : V
  pub gain_1 : V
  pub gain_2 : V
  pub gain_3 : V
  pub gain_4 : V
  pub fault_ack : ℕ
  pub ts : ℕ
  pub op_idx_aux : ℕ
  pub aux : V
