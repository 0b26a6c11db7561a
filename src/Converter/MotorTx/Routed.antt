-- ===== src/Converter/MotorTx/Routed.antt =====
-- The transmit PDO that src/converter.cpp of plugins/advrf_dds_common makes of a motor command: its
-- discriminator, its index and its payload fit each other.
use ecat_middleware_advr.Prelude.{
  ◌≡◌, refl, is_neg, inl, inr, if◌then◌else◌, Option, none, some, Bool-cases,
}
use ecat_middleware_advr.Pdo.{PdoType}
use ecat_middleware_advr.Converter.Messages.{MotorTxPdoMsg}
use ecat_middleware_advr.Converter.MotorTx.{
  EcSlavePdo, cleared, motor_xt_tx_from_dds, motor_tx_from_dds, cia402_tx_from_dds, motor_payload,
  with_index, motor_pdo_from_dds,
}

-- The transmit type of a motor of this type.
unfoldable pub tx_type : PdoType → Option PdoType
tx_type PdoType.rx_motor = some PdoType.tx_motor
tx_type PdoType.tx_motor = some PdoType.tx_motor
tx_type PdoType.rx_xt_motor = some PdoType.tx_xt_motor
tx_type PdoType.tx_xt_motor = some PdoType.tx_xt_motor
tx_type PdoType.rx_cia402 = some PdoType.tx_cia402
tx_type PdoType.tx_cia402 = some PdoType.tx_cia402
tx_type _ = none

module _ {V : Type 0} where
  -- A PDO of one transmit type: that discriminator, the index, and the payload of the type only. Without
  -- a type it is the cleared PDO.
  abbrev pub IsRouted : MotorTxPdoMsg V → Option PdoType → EcSlavePdo V → Type 0
  IsRouted m (some PdoType.tx_motor) pb =
      (pb.type ≡ some PdoType.tx_motor)
      × (pb.index ≡ some m.ecat_id)
      × (pb.motor_tx_pdo ≡ some (motor_tx_from_dds m))
      × (pb.motor_xt_tx_pdo ≡ none)
      × (pb.cia402_tx_pdo ≡ none)
  IsRouted m (some PdoType.tx_xt_motor) pb =
      (pb.type ≡ some PdoType.tx_xt_motor)
      × (pb.index ≡ some m.ecat_id)
      × (pb.motor_xt_tx_pdo ≡ some (motor_xt_tx_from_dds m))
      × (pb.motor_tx_pdo ≡ none)
      × (pb.cia402_tx_pdo ≡ none)
  IsRouted m (some PdoType.tx_cia402) pb =
      (pb.type ≡ some PdoType.tx_cia402)
      × (pb.index ≡ some m.ecat_id)
      × (pb.cia402_tx_pdo ≡ some (cia402_tx_from_dds m))
      × (pb.motor_tx_pdo ≡ none)
      × (pb.motor_xt_tx_pdo ≡ none)
  IsRouted m (some _) pb = ⊥
  IsRouted m none pb = pb ≡ cleared

  by_type :
      (m : MotorTxPdoMsg V) (t : PdoType)
      → IsRouted m (tx_type t) (with_index m.ecat_id (motor_payload m t))
  unfolding with_index motor_payload tx_type
  by_type m PdoType.rx_motor = (refl, refl, refl, refl, refl)
  by_type m PdoType.tx_motor = (refl, refl, refl, refl, refl)
  by_type m PdoType.rx_xt_motor = (refl, refl, refl, refl, refl)
  by_type m PdoType.tx_xt_motor = (refl, refl, refl, refl, refl)
  by_type m PdoType.rx_cia402 = (refl, refl, refl, refl, refl)
  by_type m PdoType.tx_cia402 = (refl, refl, refl, refl, refl)
  by_type m _ = refl

  -- Whatever PDO was passed in, a command with an ID that is not negative becomes, for a receive or
  -- transmit type of a motor, a PDO with the transmit discriminator, the ID as index and the payload of
  -- that type only; in all other cases the PDO is left cleared.
  pub motor_pdo_from_dds-IsRouted :
      (m : MotorTxPdoMsg V) (t : PdoType) (pb : EcSlavePdo V)
      → IsRouted m (if is_neg m.ecat_id then none else tx_type t) (motor_pdo_from_dds m t pb)
  unfolding motor_pdo_from_dds
  motor_pdo_from_dds-IsRouted m t pb = elim (Bool-cases (is_neg m.ecat_id)) [
    | inl e ↦ rw e refl
    | inr e ↦ rw e (by_type m t)
  ]
