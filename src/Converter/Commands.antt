-- ===== src/Converter/Commands.antt =====
-- `from_dds` of src/converter.cpp in plugins/advrf_dds_common: the commands that clients send over DDS,
-- written into the master's protobuf messages. A conversion gets the message it changes and returns it.
pub mod Faithful
use ecat_middleware_advr.Prelude.{
  ℕ, ℤ, Bool, ◌&&◌, ◌==◌, if◌then◌else◌, List, [], ◌∷◌, ◌++◌, Option, none, some, Text,
}
use ecat_middleware_advr.Converter.{Number, push_back, mutable}
use ecat_middleware_advr.Converter.Messages.{
  TimeMsg, HeaderMsg, GainsMsg, SmoothParMsg, PeriodParMsg, HomingParMsg, SmoothVelParMsg,
  TrajectoryCmdMsg, CtrlCmdMsg, FlashCmdMsg, KeyValStrMsg, EcatMasterCmdMsg, FoeMasterMsg,
  TrjQueueCmdMsg, SlaveSdoCmdMsg, SlaveSdoInfoMsg, MotorPdoCmdMsg, MotorsPdoCmdMsg,
  SlaveRegistryWriteMsg, AuxCmdMsg, PdoAuxCmdMsg, ReplCmdContentMsg,
}
use ecat_middleware_advr.Converter.Protobuf.{
  AuxCmd, CtrlCmd, EcatMasterCmd, FlashCmd, FoeMaster, Gains, Header, HomingPar, KeyVal,
  MotorPdoCmd, MotorsPdoCmd, PdosAuxCmd, PeriodPar, ReplCmd, SlaveRegistryWrite, SlaveSdoCmd,
  SlaveSdoInfo, SmoothPar, SmoothVelPar, Time, TrajectoryCmd, TrjQueueCmd, default_gains,
  default_smooth_par, default_period_par, default_homing_par, default_smooth_vel_par,
  default_trajectory_cmd, default_ctrl_cmd, default_motor_pdo_cmd, default_motors_pdo_cmd,
  default_repl_cmd, default_time, default_header, default_flash_cmd, default_ecat_master_cmd,
  default_foe_master, default_trj_queue_cmd, default_slave_sdo_cmd, default_slave_sdo_info,
  default_slave_registry_write, default_pdos_aux_cmd,
}

unfoldable pub time_from_dds : TimeMsg → Time → Time
time_from_dds m p = record p { sec = m.sec; nsec = m.nanosec }

unfoldable pub header_from_dds : HeaderMsg → Header → Header
header_from_dds m p =
    let stamp = mutable default_time p.stamp in
    record p {
      str_id = m.frame_id;
      stamp = some (record stamp { sec = m.stamp.sec; nsec = m.stamp.nanosec });
    }

-- `Ctrl_cmd::CTRL_CMD_START`, by CtrlCmd.idl.
unfoldable pub ctrl_cmd_start : ℕ
ctrl_cmd_start = 11

-- The loops that add to a repeated field.
unfoldable pub add_each : {A B : Type 0} → (A → B) → List B → List A → List B
add_each f pb [] = pb
add_each f pb (x ∷ xs) = add_each f (push_back pb (f x)) xs

unfoldable pub flash_cmd_from_dds : FlashCmdMsg → FlashCmd → FlashCmd
flash_cmd_from_dds m p = record p { type = m.type; board_id = m.board_id }

-- Name and value of an argument or of an SDO.
abbrev pub key_val : KeyValStrMsg → KeyVal
key_val m = record { name = m.name; value = m.value }

unfoldable pub ecat_master_cmd_from_dds : EcatMasterCmdMsg → EcatMasterCmd → EcatMasterCmd
ecat_master_cmd_from_dds m p = record p { type = m.type; args = add_each key_val p.args m.args }

unfoldable pub foe_master_from_dds : FoeMasterMsg → FoeMaster → FoeMaster
foe_master_from_dds m p = record p {
  filename = m.filename;
  password = m.password;
  mcu_type = m.mcu_type;
  slave_pos = m.slave_pos;
  board_id = m.board_id;
}

unfoldable pub trj_queue_cmd_from_dds : TrjQueueCmdMsg → TrjQueueCmd → TrjQueueCmd
trj_queue_cmd_from_dds m p = record p {
  type = m.type;
  trj_names = add_each (λ t. t) p.trj_names m.trj_names;
}

unfoldable pub slave_sdo_cmd_from_dds : SlaveSdoCmdMsg → SlaveSdoCmd → SlaveSdoCmd
slave_sdo_cmd_from_dds m p = record p {
  board_id = m.board_id;
  rd_sdo = add_each (λ t. t) p.rd_sdo m.rd_sdo;
  wr_sdo = add_each key_val p.wr_sdo m.wr_sdo;
}

unfoldable pub slave_sdo_info_from_dds : SlaveSdoInfoMsg → SlaveSdoInfo → SlaveSdoInfo
slave_sdo_info_from_dds m p = record p { type = m.type; board_id = m.board_id }

unfoldable pub slave_registry_write_from_dds :
    SlaveRegistryWriteMsg → SlaveRegistryWrite → SlaveRegistryWrite
slave_registry_write_from_dds m p = record p { type = m.type; board_id = m.board_id }

abbrev pub aux_cmd_from_dds : AuxCmdMsg → AuxCmd
aux_cmd_from_dds m = record { type = m.type; board_id = m.board_id }

unfoldable pub pdos_aux_cmd_from_dds : PdoAuxCmdMsg → PdosAuxCmd → PdosAuxCmd
pdos_aux_cmd_from_dds m p = record p { aux_cmds = add_each aux_cmd_from_dds p.aux_cmds m.aux_cmds }

module _ {V : Type 0} ⦃n : Number V⦄ where
  unfoldable pub gains_from_dds : GainsMsg V → Gains V → Gains V
  gains_from_dds m p = record p {
    type = m.type;
    pos_kp = m.pos_kp;
    pos_kd = m.pos_kd;
    tor_kp = m.tor_kp;
    tor_ki = m.tor_ki;
    tor_kd = m.tor_kd;
  }

  unfoldable pub trajectory_cmd_from_dds : TrajectoryCmdMsg V → TrajectoryCmd V → TrajectoryCmd V
  trajectory_cmd_from_dds m p =
      let smooth = mutable default_smooth_par p.smooth_par in
      let homing = mutable default_homing_par p.homing_par in
      let period = mutable default_period_par p.period_par in
      let smooth_vel = mutable default_smooth_vel_par p.smooth_vel_par in
      record p {
        type = m.type;
        name = m.name;
        board_id = m.board_id;
        smooth_par = some (record smooth {
          x = add_each (λ v. v) smooth.x m.smooth_par.x;
          y = add_each (λ v. v) smooth.y m.smooth_par.y;
        });
        period_par = some (record period {
          freq = m.period_par.freq;
          ampl = m.period_par.ampl;
          teta = m.period_par.teta;
          secs = m.period_par.secs;
        });
        homing_par = some (record homing { x = add_each (λ v. v) homing.x m.homing_par.x });
        smooth_vel_par = some (record smooth_vel {
          dt = m.smooth_vel_par.dt;
          p0 = m.smooth_vel_par.p0;
          v0 = m.smooth_vel_par.v0;
          pt = m.smooth_vel_par.pt;
          vt = m.smooth_vel_par.vt;
          ds = m.smooth_vel_par.ds;
          magic = m.smooth_vel_par.magic;
        });
      }

  -- START with gains of type 0 leaves the command without gains.
  unfoldable pub ctrl_cmd_from_dds : CtrlCmdMsg V → CtrlCmd V → CtrlCmd V
  ctrl_cmd_from_dds m p = record p {
    type = m.type;
    board_id = m.board_id;
    value = m.value;
    gains =
        if m.type == ctrl_cmd_start && m.gains.type == 0
        then none
        else some (gains_from_dds m.gains (mutable default_gains p.gains));
  }

  unfoldable pub motor_pdo_cmd_from_dds : MotorPdoCmdMsg V → MotorPdoCmd V
  motor_pdo_cmd_from_dds m = record default_motor_pdo_cmd {
    motor_id = m.motor_id;
    pos_ref = m.pos_ref;
    vel_ref = m.vel_ref;
    tor_ref = m.tor_ref;
    gains = some (gains_from_dds m.gains default_gains);
  }

  unfoldable pub motors_pdo_cmd_from_dds : MotorsPdoCmdMsg V → MotorsPdoCmd V → MotorsPdoCmd V
  motors_pdo_cmd_from_dds m p = record p {
    motors_pdo = add_each motor_pdo_cmd_from_dds p.motors_pdo m.motors_pdo;
  }

  unfoldable pub repl_cmd_from_dds : ReplCmdContentMsg V → ReplCmd V → ReplCmd V
  repl_cmd_from_dds m p = record p {
    type = m.type;
    trajectory_cmd = some (
        trajectory_cmd_from_dds m.trajectory_cmd (mutable default_trajectory_cmd p.trajectory_cmd));
    ctrl_cmd = some (ctrl_cmd_from_dds m.ctrl_cmd (mutable default_ctrl_cmd p.ctrl_cmd));
    flash_cmd = some (flash_cmd_from_dds m.flash_cmd (mutable default_flash_cmd p.flash_cmd));
    ecat_master_cmd = some (
        ecat_master_cmd_from_dds m.ecat_master_cmd
          (mutable default_ecat_master_cmd p.ecat_master_cmd));
    foe_master = some (foe_master_from_dds m.foe_master (mutable default_foe_master p.foe_master));
    trj_queue_cmd =
        some
          (trj_queue_cmd_from_dds m.trj_queue_cmd (mutable default_trj_queue_cmd p.trj_queue_cmd));
    slave_sdo_cmd =
        some
          (slave_sdo_cmd_from_dds m.slave_sdo_cmd (mutable default_slave_sdo_cmd p.slave_sdo_cmd));
    slave_sdo_info = some (
        slave_sdo_info_from_dds m.slave_sdo_info (mutable default_slave_sdo_info p.slave_sdo_info));
    motors_pdo_cmd = some (
        motors_pdo_cmd_from_dds m.motors_pdo_cmd (mutable default_motors_pdo_cmd p.motors_pdo_cmd));
    slave_registry_write = some (
        slave_registry_write_from_dds m.slave_registry_write
          (mutable default_slave_registry_write p.slave_registry_write));
    pdos_aux_cmd =
        some (pdos_aux_cmd_from_dds m.pdos_aux_cmd (mutable default_pdos_aux_cmd p.pdos_aux_cmd));
  }

  -- The loop over the requests of a batch: one new message for each.
  unfoldable pub add_requests : List (ReplCmdContentMsg V) → List (ReplCmd V) → List (ReplCmd V)
  add_requests [] pb = pb
  add_requests (m ∷ ms) pb = add_requests ms (push_back pb (repl_cmd_from_dds m default_repl_cmd))

  -- The batch: what `pb` held before is cleared.
  unfoldable pub repl_cmds_from_dds :
      List (ReplCmdContentMsg V) → List (ReplCmd V) → List (ReplCmd V)
  repl_cmds_from_dds requests pb = add_requests requests []
