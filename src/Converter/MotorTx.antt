-- ===== src/Converter/MotorTx.antt =====
-- `from_dds` of a motor command PDO, src/converter.cpp in plugins/advrf_dds_common: the transmit PDO for
-- the type of the slave that discovery reports.
pub mod Routed
use ecat_middleware_advr.Prelude.{
  ℕ, ℤ, Bool, true, false, ◌≡◌, refl, is_neg, if◌then◌else◌, Option, none, some, arith, Bool-cases,
}
use ecat_middleware_advr.Pdo.{PdoType}
use ecat_middleware_advr.Converter.{Number}
use ecat_middleware_advr.Converter.Messages.{MotorTxPdoMsg}

pub record MotorXtTxPdo (V : Type 0) : Type 0 where
  pub pos_ref : V
  pub vel_ref : V
  pub tor_ref : V
  pub gain_0 : V
  pub gain_1 : V
  pub gain_2 : V
  pub gain_3 : V
  pub gain_4 : V
  pub fault_ack : ℕ
  pub ts : ℕ
  pub op_idx_aux : ℕ
  pub aux : V

pub record MotorTxPdo (V : Type 0) : Type 0 where
  pub pos_ref : V
  pub gainp : V
  pub gaind : V
  pub fault_ack : ℕ
  pub ts : ℕ

pub record Cia402TxPdo (V : Type 0) : Type 0 where
  pub gain_0 : V
  pub gain_1 : V
  pub gain_2 : V
  pub gain_3 : V
  pub target_current : V
  pub target_vel : V
  pub target_pos : V

-- `Ec_slave_pdo`: the fields that the conversion sets, none of them in a cleared message. `index` is the
-- header's.
pub record EcSlavePdo (V : Type 0) : Type 0 where
  pub type : Option PdoType
  pub index : Option ℤ
  pub motor_tx_pdo : Option (MotorTxPdo V)
  pub motor_xt_tx_pdo : Option (MotorXtTxPdo V)
  pub cia402_tx_pdo : Option (Cia402TxPdo V)

module _ {V : Type 0} where
  abbrev pub cleared : EcSlavePdo V
  cleared = record {
    type = none;
    index = none;
    motor_tx_pdo = none;
    motor_xt_tx_pdo = none;
    cia402_tx_pdo = none;
  }

  unfoldable pub motor_xt_tx_from_dds : MotorTxPdoMsg V → MotorXtTxPdo V
  motor_xt_tx_from_dds m = record {
    pos_ref = m.pos_ref;
    vel_ref = m.vel_ref;
    tor_ref = m.tor_ref;
    gain_0 = m.gain_0;
    gain_1 = m.gain_1;
    gain_2 = m.gain_2;
    gain_3 = m.gain_3;
    gain_4 = m.gain_4;
    fault_ack = m.fault_ack;
    ts = m.ts;
    op_idx_aux = m.op_idx_aux;
    aux = m.aux;
  }

  unfoldable pub motor_tx_from_dds : MotorTxPdoMsg V → MotorTxPdo V
  motor_tx_from_dds m = record {
    pos_ref = m.pos_ref;
    gainp = m.gain_0;
    gaind = m.gain_1;
    fault_ack = m.fault_ack;
    ts = m.ts;
  }

  unfoldable pub cia402_tx_from_dds : MotorTxPdoMsg V → Cia402TxPdo V
  cia402_tx_from_dds m = record {
    gain_0 = m.gain_0;
    gain_1 = m.gain_1;
    gain_2 = m.gain_2;
    gain_3 = m.gain_3;
    target_current = m.cur_ref;
    target_vel = m.vel_ref;
    target_pos = m.pos_ref;
  }

  -- The `switch` on the type: none for the types that are not a motor's.
  unfoldable pub motor_payload : MotorTxPdoMsg V → PdoType → Option (EcSlavePdo V)
  motor_payload m PdoType.rx_motor =
      some
        (record cleared { motor_tx_pdo = some (motor_tx_from_dds m); type = some PdoType.tx_motor })
  motor_payload m PdoType.tx_motor =
      some
        (record cleared { motor_tx_pdo = some (motor_tx_from_dds m); type = some PdoType.tx_motor })
  motor_payload m PdoType.rx_xt_motor = some (record cleared {
    motor_xt_tx_pdo = some (motor_xt_tx_from_dds m);
    type = some PdoType.tx_xt_motor;
  })
  motor_payload m PdoType.tx_xt_motor = some (record cleared {
    motor_xt_tx_pdo = some (motor_xt_tx_from_dds m);
    type = some PdoType.tx_xt_motor;
  })
  motor_payload m PdoType.rx_cia402 = some (record cleared {
    cia402_tx_pdo = some (cia402_tx_from_dds m);
    type = some PdoType.tx_cia402;
  })
  motor_payload m PdoType.tx_cia402 = some (record cleared {
    cia402_tx_pdo = some (cia402_tx_from_dds m);
    type = some PdoType.tx_cia402;
  })
  motor_payload m _ = none

  -- The header's index behind the `switch`; nothing behind its early return.
  unfoldable pub with_index : ℤ → Option (EcSlavePdo V) → EcSlavePdo V
  with_index id none = cleared
  with_index id (some pb) = record pb { index = some id }

  -- The message that is passed in is cleared first; a negative ID leaves it cleared.
  unfoldable pub motor_pdo_from_dds : MotorTxPdoMsg V → PdoType → EcSlavePdo V → EcSlavePdo V
  motor_pdo_from_dds m t pb =
      if is_neg m.ecat_id then cleared else with_index m.ecat_id (motor_payload m t)
