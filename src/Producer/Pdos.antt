-- ===== src/Producer/Pdos.antt =====
-- The PDOs that src/producer.cpp of core/advrf_middleware_core makes up, one function for each device.
use ecat_middleware_advr.Prelude.{ℕ, ℤ, pos, ◌+◌, ◌%◌, ◌++◌, [], codes, u32_mod}
use ecat_middleware_advr.Channel.{DeviceTypeRx}
use ecat_middleware_advr.Pdo.{PdoType}
use ecat_middleware_advr.Producer.{Reals, RxPayload, RxPdo, int_text, headless, set_pdo_header}

module _ {D V : Type 0} (r : Reals D V) where
  open r use {sin, cos, plus, times, decimal, of_int, to_float, truncated, truncated_float}

  -- `t + 0.2 * id`.
  abbrev phase : D → ℤ → D
  phase t id = plus t (times (decimal 2 1) (of_int id))

  abbrev zero_float : V
  zero_float = to_float (decimal 0 1)

  unfoldable pub make_motor_pdo : D → ℕ → ℕ → ℤ → RxPdo V
  unfolding set_pdo_header int_text
  make_motor_pdo t sample_index now motor_id =
      set_pdo_header (codes "motor_" ++ int_text motor_id) sample_index now (
        headless PdoType.rx_cia402 (
          RxPayload.cia402 (record {
            statusword = 4660;
            modes_of_op = pos 8;
            motor_pos = to_float (sin (phase t motor_id));
            motor_vel = to_float (cos (phase t motor_id));
            link_pos = to_float (sin (phase t motor_id));
            link_vel = to_float (cos (phase t motor_id));
            current = zero_float;
            torque = zero_float;
            demanded_pos = zero_float;
            demanded_vel = zero_float;
            demanded_current = zero_float;
            demanded_torque = zero_float;
            control_effort = zero_float;
            motor_temp = zero_float;
            drive_temp = truncated (decimal 355 1);
            error_code = 0;
            error_report = [];
          })))

  unfoldable pub make_gripper_pdo : D → ℕ → ℕ → ℤ → RxPdo V
  unfolding set_pdo_header int_text
  make_gripper_pdo t sample_index now gripper_id =
      set_pdo_header (codes "gripper_" ++ int_text gripper_id) sample_index now (
        headless PdoType.rx_gripper (
          RxPayload.gripper (record {
            statusword = 17185;
            motor_pos = to_float (sin (phase t gripper_id));
            link_pos = to_float (sin (phase t gripper_id));
            demanded_pos = zero_float;
            demanded_vel = zero_float;
            error_code = 0;
          })))

  unfoldable pub make_valve_pdo : D → ℕ → ℕ → ℤ → RxPdo V
  unfolding set_pdo_header int_text
  make_valve_pdo t sample_index now valve_id =
      set_pdo_header (codes "valve_" ++ int_text valve_id) sample_index now (
        headless PdoType.rx_hyq_knee (
          RxPayload.hyq_knee (record {
            encoder_position = to_float (sin (phase t valve_id));
            force = to_float (cos (phase t valve_id));
            pressure_1 = to_float (sin (phase t valve_id));
            pressure_2 = to_float (cos (phase t valve_id));
            current = zero_float;
            temperature = zero_float;
            fault = 0;
            rtt = 0;
            op_idx_ack = 0;
            aux = zero_float;
            current_ref_fb = zero_float;
            position_ref_fb = zero_float;
            force_ref_fb = zero_float;
          })))

  -- `0.25 * std::sin(t * 0.2)`.
  abbrev yaw : D → D
  yaw t = times (decimal 25 2) (sin (times t (decimal 2 1)))

  unfoldable pub make_imu_pdo : D → ℕ → ℕ → ℤ → RxPdo V
  unfolding set_pdo_header int_text
  make_imu_pdo t sample_index now imu_id =
      set_pdo_header (codes "imu_" ++ int_text imu_id) sample_index now (
        headless PdoType.rx_imu_vn (
          RxPayload.imu_vn (record {
            x_rate = to_float (times (decimal 10 2) (sin t));
            y_rate = to_float (times (decimal 20 2) (cos t));
            z_rate = to_float (times (decimal 5 2) (sin (times t (decimal 5 1))));
            x_acc = to_float (times (decimal 15 2) (sin (times t (decimal 7 1))));
            y_acc = to_float (times (decimal 10 2) (cos (times t (decimal 4 1))));
            z_acc = to_float (plus (decimal 981 2) (times (decimal 5 1) (sin t)));
            x_quat = zero_float;
            y_quat = zero_float;
            z_quat = to_float (sin (times (yaw t) (decimal 5 1)));
            w_quat = to_float (cos (times (yaw t) (decimal 5 1)));
            temperature = (35 + sample_index % 4) % u32_mod;
            imu_ts = sample_index % u32_mod;
            digital_in = (sample_index % 2) % u32_mod;
            fault = 0;
            rtt = 2;
          })))

  unfoldable pub make_pb_pdo : D → ℕ → ℕ → ℤ → RxPdo V
  unfolding set_pdo_header int_text
  make_pb_pdo t sample_index now power_board_id =
      set_pdo_header (codes "power_board_" ++ int_text power_board_id) sample_index now (
        headless PdoType.rx_pow_f28m36 (
          RxPayload.pow_f28m36 (record {
            v_batt = to_float (sin (phase t power_board_id));
            v_load = to_float (sin (phase t power_board_id));
            i_load = to_float (cos (phase t power_board_id));
            temp_pcb = zero_float;
            temp_heatsink = zero_float;
            temp_batt = zero_float;
            status = 1;
            fault = 0;
            rtt = truncated_float zero_float;
            op_idx_ack = 0;
            aux = zero_float;
          })))

  unfoldable pub make_pump_pdo : D → ℕ → ℕ → ℤ → RxPdo V
  unfolding set_pdo_header int_text
  make_pump_pdo t sample_index now pump_id =
      set_pdo_header (codes "pump_" ++ int_text pump_id) sample_index now (
        headless PdoType.rx_hyq_hpu (
          RxPayload.hyq_hpu (record {
            motor_current = to_float (sin (phase t pump_id));
            motor_speed = to_float (sin (phase t pump_id));
            pressure1 = to_float (cos (phase t pump_id));
            pressure2 = to_float (cos (phase t pump_id));
            temperature = 40;
            mosfet_temperature = 0;
            motor_temperature = pos 0;
            fault = 0;
            rtt = 0;
            op_idx_ack = 0;
            aux = zero_float;
          })))

  unfoldable pub make_ft_pdo : D → ℕ → ℕ → ℤ → RxPdo V
  unfolding set_pdo_header int_text
  make_ft_pdo t sample_index now force_torque_id =
      set_pdo_header (codes "force_torque_" ++ int_text force_torque_id) sample_index now (
        headless PdoType.rx_ft6 (
          RxPayload.ft6 (record {
            force_x = to_float (sin (phase t force_torque_id));
            force_y = to_float (sin (phase t force_torque_id));
            force_z = to_float (cos (phase t force_torque_id));
            torque_x = to_float (cos (phase t force_torque_id));
            torque_y = to_float (sin (phase t force_torque_id));
            torque_z = to_float (sin (phase t force_torque_id));
            fault = 0;
            rtt = 0;
            op_idx_ack = 0;
            aux = zero_float;
          })))

  -- The switch over the type of a slave.
  unfoldable pub make_pdo : DeviceTypeRx → D → ℕ → ℕ → ℤ → RxPdo V
  unfolding make_imu_pdo make_motor_pdo make_gripper_pdo make_pb_pdo make_pump_pdo make_ft_pdo
      make_valve_pdo
  make_pdo DeviceTypeRx.imu = make_imu_pdo
  make_pdo DeviceTypeRx.motor = make_motor_pdo
  make_pdo DeviceTypeRx.gripper = make_gripper_pdo
  make_pdo DeviceTypeRx.power_board = make_pb_pdo
  make_pdo DeviceTypeRx.pump = make_pump_pdo
  make_pdo DeviceTypeRx.force_torque = make_ft_pdo
  make_pdo DeviceTypeRx.valve = make_valve_pdo
