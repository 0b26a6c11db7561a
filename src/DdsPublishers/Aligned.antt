-- ===== src/DdsPublishers/Aligned.antt =====
-- The messages of the DDS state publishers that collect several devices: every sequence of a published
-- message has one entry for each name.
use ecat_middleware_advr.Prelude.{
  ℕ, ◌≡◌, refl, subst, Bool, List, [], ◌∷◌, some, Text, ok, arith, length, length-append, All,
}
use ecat_middleware_advr.Pdo.{PdoType, PdoMessage}
use ecat_middleware_advr.Pdo.Clock.{ClockOffset}
use ecat_middleware_advr.Converter.{Number, push_back}
use ecat_middleware_advr.Converter.Received.{
  PdoPayloads, MotorMsg, ValveMsg, GripperMsg, empty_motor, empty_valve, empty_gripper,
}
use ecat_middleware_advr.Converter.State.{
  motor_from_cia402, motor_from_xt_motor, motor_from_motor, push_null_string, valve_from_protobuf,
  gripper_from_protobuf,
}
use ecat_middleware_advr.DdsPublishers.{Processed, PdoPublisher, run_cycle}
use ecat_middleware_advr.DdsPublishers.Process.{
  Received, motor_process, motor_converted, motor_finished, valve_process, valve_type,
  gripper_process, gripper_type,
}
use ecat_middleware_advr.DdsPublishers.Cycles.{run_cycle-Inv}

-- All of these lengths are `k`.
abbrev pub AllAre : ℕ → List ℕ → Type 0
AllAre k = All (λ l. l ≡ k)

module _ {V : Type 0} where
  abbrev pub MotorAligned : MotorMsg V → Type 0
  MotorAligned m = AllAre (length m.name) (
      length m.statusword
      ∷ length m.modes_of_op
      ∷ length m.motor_pos
      ∷ length m.motor_vel
      ∷ length m.link_pos
      ∷ length m.link_vel
      ∷ length m.current
      ∷ length m.torque
      ∷ length m.demanded_pos
      ∷ length m.demanded_vel
      ∷ length m.demanded_torque
      ∷ length m.demanded_current
      ∷ length m.control_effort
      ∷ length m.motor_temp
      ∷ length m.drive_temp
      ∷ length m.error_code
      ∷ length m.error_report
      ∷ length m.fault
      ∷ length m.rtt
      ∷ [])

  abbrev pub ValveAligned : ValveMsg V → Type 0
  ValveAligned m = AllAre (length m.name) (
      length m.encoder_position
      ∷ length m.force
      ∷ length m.pressure1
      ∷ length m.pressure2
      ∷ length m.current
      ∷ length m.temperature
      ∷ length m.fault
      ∷ length m.rtt
      ∷ length m.op_idx_ack
      ∷ length m.aux
      ∷ length m.current_ref_fb
      ∷ length m.position_ref_fb
      ∷ length m.force_ref_fb
      ∷ [])

  abbrev pub GripperAligned : GripperMsg V → Type 0
  GripperAligned m = AllAre (length m.name) (
      length m.statusword
      ∷ length m.motor_pos
      ∷ length m.link_pos
      ∷ length m.demanded_pos
      ∷ length m.demanded_vel
      ∷ length m.error_code
      ∷ [])

grown :
    {A B : Type 0} (xs : List A) (ys : List B) (x : A) (y : B)
    → length xs ≡ length ys
    → length (push_back xs x) ≡ length (push_back ys y)
grown xs ys x y h = omega (arith, length-append xs (x ∷ []), length-append ys (y ∷ []))

-- One column grows with the names, and the others after it.
column :
    {A B P Q : Type 0} (xs : List A) (ys : List B) (x : A) (y : B)
    → (P → Q)
    → (length xs ≡ length ys) × P
    → (length (push_back xs x) ≡ length (push_back ys y)) × Q
column xs ys x y f h = (grown _ _ _ _ h.0, f h.1)

updated-injective : {M : Type 0} {m m' : M} → Processed.updated m ≡ Processed.updated m' → m ≡ m'
updated-injective e = cc

module _ {Pdo V : Type 0} ⦃p : PdoMessage Pdo⦄ ⦃q : PdoPayloads Pdo V⦄ ⦃n : Number V⦄
    (g_offset : ClockOffset) (id_to_name : List (ℕ × Text)) where
  motor_process-Aligned :
      (m m' : MotorMsg V) (r : Received Pdo)
      → MotorAligned m
      → motor_process g_offset id_to_name m r ≡ Processed.updated m'
      → MotorAligned m'
  unfolding motor_process motor_converted motor_from_cia402 motor_from_xt_motor motor_from_motor
      push_null_string
  motor_process-Aligned m m' r h e = by_type (p.pdo_type r.pdo) e
    where
      by_type :
          (t : PdoType)
          → motor_finished g_offset id_to_name r (motor_converted g_offset id_to_name t m r.pdo)
            ≡ Processed.updated m'
          → MotorAligned m'
      by_type PdoType.rx_cia402 k = subst MotorAligned (updated-injective k) (
          column _ _ _ _
            (column _ _ _ _ (
              column _ _ _ _ (
                column _ _ _ _ (
                  column _ _ _ _ (
                    column _ _ _ _ (
                      column _ _ _ _ (
                        column _ _ _ _ (
                          column _ _ _ _ (
                            column _ _ _ _ (
                              column _ _ _ _ (
                                column _ _ _ _ (
                                  column _ _ _ _ (
                                    column _ _ _ _ (
                                      column _ _ _ _ (
                                        column _ _ _ _ (
                                          column _ _ _ _ (
                                            column _ _ _ _
                                              (column _ _ _ _ (λ u. u)))))))))))))))))))
            h)
      by_type _ k = cc

  valve_process-Aligned :
      (m m' : ValveMsg V) (r : Received Pdo)
      → ValveAligned m
      → valve_process g_offset id_to_name m r ≡ Processed.updated m'
      → ValveAligned m'
  unfolding valve_process valve_type valve_from_protobuf
  valve_process-Aligned m m' r h e = by_type (p.pdo_type r.pdo) e
    where
      by_type :
          (t : PdoType)
          → valve_type g_offset id_to_name t m r ≡ Processed.updated m'
          → ValveAligned m'
      by_type PdoType.rx_hyq_knee k = subst ValveAligned (updated-injective k) (
          column _ _ _ _
            (column _ _ _ _ (
              column _ _ _ _ (
                column _ _ _ _ (
                  column _ _ _ _ (
                    column _ _ _ _ (
                      column _ _ _ _ (
                        column _ _ _ _ (
                          column _ _ _ _ (
                            column _ _ _ _
                              (column _ _ _ _ (column _ _ _ _ (column _ _ _ _ (λ u. u)))))))))))))
            h)
      by_type _ k = cc

  gripper_process-Aligned :
      (m m' : GripperMsg V) (r : Received Pdo)
      → GripperAligned m
      → gripper_process g_offset id_to_name m r ≡ Processed.updated m'
      → GripperAligned m'
  unfolding gripper_process gripper_type gripper_from_protobuf
  gripper_process-Aligned m m' r h e = by_type (p.pdo_type r.pdo) e
    where
      by_type :
          (t : PdoType)
          → gripper_type g_offset id_to_name t m r ≡ Processed.updated m'
          → GripperAligned m'
      by_type PdoType.rx_gripper k = subst GripperAligned (updated-injective k) (
          column _ _ _ _
            (column _ _ _ _
              (column _ _ _ _ (column _ _ _ _ (column _ _ _ _ (column _ _ _ _ (λ u. u))))))
            h)
      by_type _ k = cc

  -- In a motors message that a cycle writes, every sequence has one entry for each name, whichever PDOs
  -- the cycle got.
  pub motor_cycle-Aligned :
      (b : PdoPublisher (MotorMsg V)) (pdos : List (Received Pdo)) (valid : Bool) (m : MotorMsg V)
      → run_cycle (motor_process g_offset id_to_name) empty_motor b pdos valid ≡ ok (some m)
      → MotorAligned m
  motor_cycle-Aligned b pdos valid m e =
      run_cycle-Inv (motor_process g_offset id_to_name) empty_motor MotorAligned
        (λ a a' r. motor_process-Aligned a a' r) b pdos valid m
        (
          refl,
          (
            refl,
            (
              refl,
              (
                refl,
                (
                  refl,
                  (
                    refl,
                    (
                      refl,
                      (
                        refl,
                        (
                          refl,
                          (
                            refl,
                            (
                              refl,
                              (refl, (refl, (refl, (refl, (refl, (refl, (refl, (refl, (tt))))))))),
                            ),
                          ),
                        ),
                      ),
                    ),
                  ),
                ),
              ),
            ),
          ),
        )
        e

  -- In a valves message that a cycle writes, every sequence has one entry for each name, whichever PDOs
  -- the cycle got.
  pub valve_cycle-Aligned :
      (b : PdoPublisher (ValveMsg V)) (pdos : List (Received Pdo)) (valid : Bool) (m : ValveMsg V)
      → run_cycle (valve_process g_offset id_to_name) empty_valve b pdos valid ≡ ok (some m)
      → ValveAligned m
  valve_cycle-Aligned b pdos valid m e =
      run_cycle-Inv (valve_process g_offset id_to_name) empty_valve ValveAligned
        (λ a a' r. valve_process-Aligned a a' r) b pdos valid m
        (
          refl,
          (
            refl,
            (
              refl,
              (refl, (refl, (refl, (refl, (refl, (refl, (refl, (refl, (refl, (refl, (tt))))))))))),
            ),
          ),
        )
        e

  -- In a grippers message that a cycle writes, every sequence has one entry for each name, whichever PDOs
  -- the cycle got.
  pub gripper_cycle-Aligned :
      (b : PdoPublisher (GripperMsg V)) (pdos : List (Received Pdo)) (valid : Bool)
      (m : GripperMsg V)
      → run_cycle (gripper_process g_offset id_to_name) empty_gripper b pdos valid ≡ ok (some m)
      → GripperAligned m
  gripper_cycle-Aligned b pdos valid m e =
      run_cycle-Inv (gripper_process g_offset id_to_name) empty_gripper GripperAligned
        (λ a a' r. gripper_process-Aligned a a' r) b pdos valid m
        (refl, (refl, (refl, (refl, (refl, (refl, (tt))))))) e
