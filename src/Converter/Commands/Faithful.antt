-- ===== src/Converter/Commands/Faithful.antt =====
-- The command conversions of src/converter.cpp in plugins/advrf_dds_common: what is read back from the
-- message that they fill.
use ecat_middleware_advr.Prelude.{
  pos, ◌≡◌, refl, sym, ap, ◌∙◌, ◌↔◌, Bool, true, false, ◌&&◌, ◌==◌, List, [], ◌∷◌, ◌++◌, map,
  append-nil, append_assoc, none, All, arith,
}
use ecat_middleware_advr.Converter.{Number, push_back, mutable}
use ecat_middleware_advr.Converter.Messages.{
  GainsMsg, TrajectoryCmdMsg, CtrlCmdMsg, KeyValStrMsg, AuxPdoMsg, MotorPdoCmdMsg, AuxCmdMsg,
  ReplCmdContentMsg,
}
use ecat_middleware_advr.Converter.Received.{default_header}
use ecat_middleware_advr.Converter.Protobuf.{
  Gains, TrajectoryCmd, CtrlCmd, KeyVal, MotorPdoCmd, AuxCmd, ReplCmd, default_gains,
  default_smooth_par, default_period_par, default_homing_par, default_smooth_vel_par,
  default_trajectory_cmd, default_ctrl_cmd, default_flash_cmd, default_ecat_master_cmd,
  default_foe_master, default_trj_queue_cmd, default_slave_sdo_cmd, default_slave_sdo_info,
  default_motors_pdo_cmd, default_slave_registry_write, default_pdos_aux_cmd, default_repl_cmd,
}
use ecat_middleware_advr.Converter.Commands.{
  ctrl_cmd_start, add_each, key_val, gains_from_dds, trajectory_cmd_from_dds, ctrl_cmd_from_dds,
  flash_cmd_from_dds, ecat_master_cmd_from_dds, foe_master_from_dds, trj_queue_cmd_from_dds,
  slave_sdo_cmd_from_dds, slave_sdo_info_from_dds, motor_pdo_cmd_from_dds, motors_pdo_cmd_from_dds,
  slave_registry_write_from_dds, aux_cmd_from_dds, pdos_aux_cmd_from_dds, repl_cmd_from_dds,
  add_requests, repl_cmds_from_dds,
}

add_each_lem :
    {A B : Type 0} (f : A → B) (pb : List B) (xs : List A) → add_each f pb xs ≡ pb ++ map f xs
unfolding add_each
add_each_lem f pb [] = sym (append-nil pb)
add_each_lem f pb (x ∷ xs) =
    add_each_lem f (push_back pb (f x)) xs ∙ append_assoc pb (f x ∷ []) (map f xs)

-- A repeated field that was filled from nothing is read back element by element.
read_each :
    {A B : Type 0} (f : A → B) (g : B → A) (kept : A → A) (xs : List A)
    → ((x : A) → g (f x) ≡ kept x)
    → map g (add_each f [] xs) ≡ map kept xs
read_each f g kept xs h = ap (map g) (add_each_lem f [] xs) ∙ back xs
  where
    back : (ys : List _) → map g (map f ys) ≡ map kept ys
    back [] = refl
    back (y ∷ ys) = rw (h y, back ys) refl

map_same : {A : Type 0} (xs : List A) → map (λ x. x) xs ≡ xs
map_same [] = refl
map_same (x ∷ xs) = ap (λ ys. x ∷ ys) (map_same xs)

read_back :
    {A B : Type 0} (f : A → B) (g : B → A) (xs : List A)
    → ((x : A) → g (f x) ≡ x)
    → map g (add_each f [] xs) ≡ xs
read_back f g xs h = read_each f g (λ x. x) xs h ∙ map_same xs

copied : {A : Type 0} (xs : List A) → add_each (λ x. x) [] xs ≡ xs
copied xs = add_each_lem (λ x. x) [] xs ∙ map_same xs

-- The message that a protobuf message stands for: an absent field is a default one.
abbrev message_key_val : KeyVal → KeyValStrMsg
message_key_val p = record { name = p.name; value = p.value }

abbrev message_aux : AuxCmd → AuxCmdMsg
message_aux p = record { type = p.type; board_id = p.board_id }

module _ {V : Type 0} ⦃n : Number V⦄ where
  abbrev message_gains : Gains V → GainsMsg V
  message_gains p = record {
    type = p.type;
    pos_kp = p.pos_kp;
    pos_kd = p.pos_kd;
    tor_kp = p.tor_kp;
    tor_ki = p.tor_ki;
    tor_kd = p.tor_kd;
  }

  abbrev no_aux_pdo : AuxPdoMsg V
  no_aux_pdo = record { type = 0; idx = pos 0; value = n.zero_value }

  abbrev message_motor : MotorPdoCmd V → MotorPdoCmdMsg V
  message_motor p = record {
    motor_id = p.motor_id;
    pos_ref = p.pos_ref;
    vel_ref = p.vel_ref;
    tor_ref = p.tor_ref;
    gains = message_gains (mutable default_gains p.gains);
    aux_pdo = no_aux_pdo;
  }

  abbrev message_trajectory : TrajectoryCmd V → TrajectoryCmdMsg V
  message_trajectory p =
      let smooth = mutable default_smooth_par p.smooth_par in
      let period = mutable default_period_par p.period_par in
      let homing = mutable default_homing_par p.homing_par in
      let smooth_vel = mutable default_smooth_vel_par p.smooth_vel_par in
      record {
        type = p.type;
        name = p.name;
        board_id = p.board_id;
        smooth_par = record { x = smooth.x; y = smooth.y };
        period_par = record {
          freq = period.freq;
          ampl = period.ampl;
          teta = period.teta;
          secs = period.secs;
        };
        homing_par = record { x = homing.x };
        smooth_vel_par = record {
          dt = smooth_vel.dt;
          p0 = smooth_vel.p0;
          v0 = smooth_vel.v0;
          pt = smooth_vel.pt;
          vt = smooth_vel.vt;
          ds = smooth_vel.ds;
          magic = smooth_vel.magic;
        };
      }

  abbrev message_ctrl : CtrlCmd V → CtrlCmdMsg V
  message_ctrl p = record {
    type = p.type;
    board_id = p.board_id;
    value = p.value;
    gains = message_gains (mutable default_gains p.gains);
  }

  abbrev pub message_of : ReplCmd V → ReplCmdContentMsg V
  message_of p =
      let flash = mutable default_flash_cmd p.flash_cmd in
      let master = mutable default_ecat_master_cmd p.ecat_master_cmd in
      let foe = mutable default_foe_master p.foe_master in
      let queue = mutable default_trj_queue_cmd p.trj_queue_cmd in
      let sdo = mutable default_slave_sdo_cmd p.slave_sdo_cmd in
      let info = mutable default_slave_sdo_info p.slave_sdo_info in
      let motors = mutable default_motors_pdo_cmd p.motors_pdo_cmd in
      let registry = mutable default_slave_registry_write p.slave_registry_write in
      let aux = mutable default_pdos_aux_cmd p.pdos_aux_cmd in
      record {
        type = p.type;
        header = default_header;
        trajectory_cmd = message_trajectory (mutable default_trajectory_cmd p.trajectory_cmd);
        ctrl_cmd = message_ctrl (mutable default_ctrl_cmd p.ctrl_cmd);
        flash_cmd = record { type = flash.type; board_id = flash.board_id };
        ecat_master_cmd = record { type = master.type; args = map message_key_val master.args };
        foe_master = record {
          filename = foe.filename;
          password = foe.password;
          mcu_type = foe.mcu_type;
          slave_pos = foe.slave_pos;
          board_id = foe.board_id;
        };
        trj_queue_cmd = record { type = queue.type; trj_names = queue.trj_names };
        slave_sdo_cmd = record {
          board_id = sdo.board_id;
          rd_sdo = sdo.rd_sdo;
          wr_sdo = map message_key_val sdo.wr_sdo;
        };
        slave_sdo_info = record { type = info.type; board_id = info.board_id };
        motors_pdo_cmd = record { motors_pdo = map message_motor motors.motors_pdo };
        slave_registry_write = record { type = registry.type; board_id = registry.board_id };
        pdos_aux_cmd = record { aux_cmds = map message_aux aux.aux_cmds };
      }

  -- What the conversion takes of a request: not its header, and not the auxiliary PDOs of its motors.
  abbrev pub carried_motor : MotorPdoCmdMsg V → MotorPdoCmdMsg V
  carried_motor m = record m { aux_pdo = no_aux_pdo }

  abbrev pub carried : ReplCmdContentMsg V → ReplCmdContentMsg V
  carried m = record m {
    header = default_header;
    motors_pdo_cmd = record { motors_pdo = map carried_motor m.motors_pdo_cmd.motors_pdo };
  }

  -- A request that starts a motor without giving gains.
  abbrev pub omits_gains : CtrlCmdMsg V → Bool
  omits_gains m = m.type == ctrl_cmd_start && m.gains.type == 0

  -- A command, whatever it was before, is left without gains exactly if the request starts a motor with
  -- gains of type 0.
  pub ctrl_cmd_from_dds-gains :
      (m : CtrlCmdMsg V) (p : CtrlCmd V)
      → ((ctrl_cmd_from_dds m p).gains ≡ none) ↔ (omits_gains m ≡ true)
  unfolding ctrl_cmd_from_dds
  ctrl_cmd_from_dds-gains m p = (λ h. ground arith, λ h. rw h refl)

  ctrl_back :
      (m : CtrlCmdMsg V)
      → omits_gains m ≡ false
      → message_ctrl (ctrl_cmd_from_dds m default_ctrl_cmd) ≡ m
  unfolding ctrl_cmd_from_dds gains_from_dds
  ctrl_back m h = rw h refl

  trajectory_back :
      (m : TrajectoryCmdMsg V)
      → message_trajectory (trajectory_cmd_from_dds m default_trajectory_cmd) ≡ m
  unfolding trajectory_cmd_from_dds
  trajectory_back m = rw (copied m.smooth_par.x, copied m.smooth_par.y, copied m.homing_par.x) refl

  motor_back : (m : MotorPdoCmdMsg V) → message_motor (motor_pdo_cmd_from_dds m) ≡ carried_motor m
  unfolding motor_pdo_cmd_from_dds gains_from_dds
  motor_back m = refl

  -- What is carried of a request that does not omit the gains is read back from the message that it fills.
  repl_back :
      (m : ReplCmdContentMsg V)
      → omits_gains m.ctrl_cmd ≡ false
      → message_of (repl_cmd_from_dds m default_repl_cmd) ≡ carried m
  unfolding repl_cmd_from_dds flash_cmd_from_dds ecat_master_cmd_from_dds foe_master_from_dds
      trj_queue_cmd_from_dds slave_sdo_cmd_from_dds slave_sdo_info_from_dds motors_pdo_cmd_from_dds
      slave_registry_write_from_dds pdos_aux_cmd_from_dds
  repl_back m h =
      rw
        (
          ctrl_back m.ctrl_cmd h,
          trajectory_back m.trajectory_cmd,
          read_back key_val message_key_val m.ecat_master_cmd.args (λ x. refl),
          read_back key_val message_key_val m.slave_sdo_cmd.wr_sdo (λ x. refl),
          copied m.trj_queue_cmd.trj_names,
          copied m.slave_sdo_cmd.rd_sdo,
          read_each motor_pdo_cmd_from_dds message_motor carried_motor m.motors_pdo_cmd.motors_pdo
              motor_back,
          read_back aux_cmd_from_dds message_aux m.pdos_aux_cmd.aux_cmds (λ x. refl),
        )
        refl

  add_requests_lem :
      (ms : List (ReplCmdContentMsg V)) (pb : List (ReplCmd V))
      → add_requests ms pb ≡ pb ++ map (λ m. repl_cmd_from_dds m default_repl_cmd) ms
  unfolding add_requests
  add_requests_lem [] pb = sym (append-nil pb)
  add_requests_lem (m ∷ ms) pb =
      add_requests_lem ms (push_back pb (repl_cmd_from_dds m default_repl_cmd))
      ∙ append_assoc pb (_ ∷ []) _

  -- A batch of requests is read back in order from the messages that it becomes, whatever the vector
  -- held before, if no request starts a motor with gains of type 0: of each request all but its header
  -- and the auxiliary PDOs of its motors, which are default ones.
  pub repl_cmds_from_dds-message_of :
      (ms : List (ReplCmdContentMsg V)) (pb : List (ReplCmd V))
      → All (λ m. omits_gains m.ctrl_cmd ≡ false) ms
      → map message_of (repl_cmds_from_dds ms pb) ≡ map carried ms
  unfolding repl_cmds_from_dds
  repl_cmds_from_dds-message_of ms pb h = ap (map message_of) (add_requests_lem ms []) ∙ back ms h
    where
      back :
          (ms : List (ReplCmdContentMsg V))
          → All (λ m. omits_gains m.ctrl_cmd ≡ false) ms
          → map message_of (map (λ m. repl_cmd_from_dds m default_repl_cmd) ms) ≡ map carried ms
      back [] h = refl
      back (m ∷ ms) h = rw (repl_back m h.0, back ms h.1) refl
