-- ===== src/DdsPublishers/Motors.antt =====
-- The motors message of the DDS plugins: the PDOs at which its conversion throws.
use ecat_middleware_advr.Prelude.{ℕ, ◌≡◌, refl, Bool, true, false, List, Text, any_of}
use ecat_middleware_advr.Pdo.{PdoType, PdoMessage}
use ecat_middleware_advr.Pdo.Clock.{ClockOffset}
use ecat_middleware_advr.Converter.{Number}
use ecat_middleware_advr.Converter.Received.{PdoPayloads, MotorMsg, empty_motor}
use ecat_middleware_advr.Converter.State.{motor_from_xt_motor, motor_from_motor, push_null_string}
use ecat_middleware_advr.DdsPublishers.{PdoPublisher, run_cycle}
use ecat_middleware_advr.DdsPublishers.Process.{
  Received, motor_process, motor_converted, motor_finished,
}
use ecat_middleware_advr.DdsPublishers.Cycles.{threw, failed, run_cycle-failed}

-- The motors that are not CiA 402 drives.
abbrev pub has_no_report : PdoType → Bool
has_no_report PdoType.rx_xt_motor = true
has_no_report PdoType.rx_motor = true
has_no_report _ = false

module _ {Pdo V : Type 0} ⦃p : PdoMessage Pdo⦄ ⦃q : PdoPayloads Pdo V⦄ ⦃n : Number V⦄
    (g_offset : ClockOffset) (id_to_name : List (ℕ × Text)) where
  motor_process-threw :
      (m : MotorMsg V) (r : Received Pdo)
      → threw (motor_process g_offset id_to_name m r) ≡ has_no_report (p.pdo_type r.pdo)
  unfolding motor_process motor_converted motor_from_xt_motor motor_from_motor push_null_string
  motor_process-threw m r = by_type (p.pdo_type r.pdo)
    where
      by_type :
          (t : PdoType)
          → threw
              (motor_finished g_offset id_to_name r (motor_converted g_offset id_to_name t m r.pdo))
            ≡ has_no_report t
      by_type PdoType.rx_cia402 = refl
      by_type PdoType.rx_xt_motor = refl
      by_type PdoType.rx_motor = refl
      by_type _ = refl

  -- A cycle of the motors publisher is left by an exception exactly if it has the PDO of a motor that is
  -- no CiA 402 drive.
  pub motor_cycle-failed :
      (b : PdoPublisher (MotorMsg V)) (rs : List (Received Pdo)) (valid : Bool)
      → failed (run_cycle (motor_process g_offset id_to_name) empty_motor b rs valid)
        ≡ any_of (λ (r : Received Pdo). has_no_report (p.pdo_type r.pdo)) rs
  motor_cycle-failed b rs valid =
      run_cycle-failed (motor_process g_offset id_to_name) empty_motor
        (λ (r : Received Pdo). has_no_report (p.pdo_type r.pdo)) motor_process-threw b rs valid
