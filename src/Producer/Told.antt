-- ===== src/Producer/Told.antt =====
-- What the middleware makes of the PDOs and replies of src/producer.cpp in core/advrf_middleware_core.
use ecat_middleware_advr.Prelude.{
  ℕ, ℤ, pos, ◌+◌, ◌≤◌, ◌≡◌, refl, ap, ◌∙◌, Bool, true, List, [], ◌∷◌, map, arith, All, codes,
  to_int32, to_int32_small,
}
use ecat_middleware_advr.Channel.{DeviceTypeRx}
use ecat_middleware_advr.Pdo.{
  PdoExpected, is_expected_type, is_motor_type, is_imu_type, is_power_type, is_ft_type,
  is_valve_type, is_pump_type, is_gripper_type,
}
use ecat_middleware_advr.Pdo.Ids.{get_ecat_id, get_ecat_id-to_string}
use ecat_middleware_advr.Producer.{Reals, RxPdo, rx_pdo_message, int_text, set_pdo_header}
use ecat_middleware_advr.Producer.Pdos.{
  make_pdo, make_imu_pdo, make_motor_pdo, make_gripper_pdo, make_pb_pdo, make_pump_pdo, make_ft_pdo,
  make_valve_pdo,
}
use ecat_middleware_advr.Producer.Master.{Slave, Clocked, produce}

abbrev pub expected_of : DeviceTypeRx → PdoExpected
expected_of DeviceTypeRx.imu = PdoExpected.imu
expected_of DeviceTypeRx.motor = PdoExpected.motor
expected_of DeviceTypeRx.gripper = PdoExpected.gripper
expected_of DeviceTypeRx.power_board = PdoExpected.power_board
expected_of DeviceTypeRx.pump = PdoExpected.pump
expected_of DeviceTypeRx.force_torque = PdoExpected.force_torque
expected_of DeviceTypeRx.valve = PdoExpected.valve

module _ {D V : Type 0} (r : Reals D V) where
  -- What is told of a PDO: its queue, whether its type is that of the queue's devices, the ID in its
  -- name, and its index.
  abbrev pub told : DeviceTypeRx × RxPdo V → DeviceTypeRx × Bool × ℤ × ℤ
  told (device, pdo) =
      (device, is_expected_type pdo.type (expected_of device), get_ecat_id pdo.str_id, pdo.index)

  abbrev pub told_of : ℕ → Slave → DeviceTypeRx × Bool × ℤ × ℤ
  told_of sample_count slave = (slave.type, true, pos slave.board_id, to_int32 sample_count)

  make_pdo-told :
      (device : DeviceTypeRx) (t : D) (sample now id : ℕ)
      → id ≤ 2147483647
      → told (device, make_pdo r device t sample now (pos id))
        ≡ (device, true, pos id, to_int32 sample)
  unfolding make_pdo make_imu_pdo make_motor_pdo make_gripper_pdo make_pb_pdo make_pump_pdo
      make_ft_pdo make_valve_pdo set_pdo_header int_text is_expected_type is_motor_type is_imu_type
      is_power_type is_ft_type is_valve_type is_pump_type is_gripper_type
  make_pdo-told DeviceTypeRx.imu t sample now id h =
      ap (λ z. (DeviceTypeRx.imu, true, z, to_int32 sample))
        (get_ecat_id-to_string (codes "imu") id h)
  make_pdo-told DeviceTypeRx.motor t sample now id h =
      ap (λ z. (DeviceTypeRx.motor, true, z, to_int32 sample))
        (get_ecat_id-to_string (codes "motor") id h)
  make_pdo-told DeviceTypeRx.gripper t sample now id h =
      ap (λ z. (DeviceTypeRx.gripper, true, z, to_int32 sample))
        (get_ecat_id-to_string (codes "gripper") id h)
  make_pdo-told DeviceTypeRx.power_board t sample now id h =
      ap (λ z. (DeviceTypeRx.power_board, true, z, to_int32 sample))
        (get_ecat_id-to_string (codes "power_board") id h)
  make_pdo-told DeviceTypeRx.pump t sample now id h =
      ap (λ z. (DeviceTypeRx.pump, true, z, to_int32 sample))
        (get_ecat_id-to_string (codes "pump") id h)
  make_pdo-told DeviceTypeRx.force_torque t sample now id h =
      ap (λ z. (DeviceTypeRx.force_torque, true, z, to_int32 sample))
        (get_ecat_id-to_string (codes "force_torque") id h)
  make_pdo-told DeviceTypeRx.valve t sample now id h =
      ap (λ z. (DeviceTypeRx.valve, true, z, to_int32 sample))
        (get_ecat_id-to_string (codes "valve") id h)

  -- A cycle of the producer pushes one PDO for each board, in the order of the topology and to the queue of
  -- the board's device. Its type is one of that category, the ID in its name is that of the board, but
  -- its index is the number of the cycle.
  pub produce-told :
      (s : Clocked D) (clock : ℕ → ℕ) (slaves : List Slave)
      → All (λ (slave : Slave). slave.board_id ≤ 2147483647) slaves
      → map told (produce r s clock slaves) ≡ map (told_of s.sample_count) slaves
  unfolding produce
  produce-told s clock [] h = refl
  produce-told s clock (slave ∷ slaves) h =
      let first =
        ap (λ z. told (slave.type, make_pdo r slave.type s.t s.sample_count (clock 0) z))
          (to_int32_small slave.board_id (omega (arith, h.0)))
        ∙ make_pdo-told slave.type s.t s.sample_count (clock 0) slave.board_id h.0 in
      ap (λ x. x ∷ map told (produce r s (λ n. clock (n + 1)) slaves)) first
      ∙ ap (λ l. told_of s.sample_count slave ∷ l) (produce-told s (λ n. clock (n + 1)) slaves h.1)
