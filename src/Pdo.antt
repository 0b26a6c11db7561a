-- ===== src/Pdo.antt =====
-- utils/pdo_utils.hpp of core/advrf_middleware_core: the PDO types that the middleware tells apart,
-- and what it reads of a received PDO. `iit::advrf::Ec_slave_pdo` is generated from a schema that is
-- not in the repository, so it is an interface here: its accessors, as the source calls them.
pub mod Check
pub mod Frame
pub mod Clock
pub mod Ids
use ecat_middleware_advr.Prelude.{ℕ, Bool, true, false, ℤ, Text}

-- The enumerators of `Ec_slave_pdo::Type` that the source names, and any other.
pub data PdoType : Type 0 where
  rx_cia402 rx_xt_motor rx_motor rx_imu_vn rx_pow_f28m36 rx_ft6 rx_hyq_knee rx_hyq_hpu : PdoType
  rx_gripper dummy client_pipe unspecified : PdoType
  tx_cia402 tx_xt_motor tx_motor tx_hyq_knee tx_gripper tx_hyq_hpu tx_pow_f28m36 tx_ft6 : PdoType
  other : ℕ → PdoType

-- The accessors of a PDO and of its header. The values behind an absent header or field are the
-- defaults that the generated accessors return.
pub record PdoMessage (Pdo : Type 0) : Type 0 where
  pub pdo_type : Pdo → PdoType
  pub has_header : Pdo → Bool
  pub has_index : Pdo → Bool
  pub index : Pdo → ℤ
  pub has_str_id : Pdo → Bool
  pub str_id : Pdo → Text
  pub has_stamp : Pdo → Bool
  pub sec : Pdo → ℤ
  pub nsec : Pdo → ℤ

pub data PdoExpected : Type 0 where
  motor imu power_board force_torque valve pump gripper : PdoExpected

unfoldable pub is_motor_type : PdoType → Bool
is_motor_type PdoType.rx_cia402 = true
is_motor_type PdoType.rx_xt_motor = true
is_motor_type PdoType.rx_motor = true
is_motor_type _ = false

unfoldable pub is_imu_type : PdoType → Bool
is_imu_type PdoType.rx_imu_vn = true
is_imu_type _ = false

unfoldable pub is_power_type : PdoType → Bool
is_power_type PdoType.rx_pow_f28m36 = true
is_power_type _ = false

unfoldable pub is_ft_type : PdoType → Bool
is_ft_type PdoType.rx_ft6 = true
is_ft_type _ = false

unfoldable pub is_valve_type : PdoType → Bool
is_valve_type PdoType.rx_hyq_knee = true
is_valve_type _ = false

unfoldable pub is_pump_type : PdoType → Bool
is_pump_type PdoType.rx_hyq_hpu = true
is_pump_type _ = false

unfoldable pub is_gripper_type : PdoType → Bool
is_gripper_type PdoType.rx_gripper = true
is_gripper_type _ = false

unfoldable pub is_hub_type : PdoType → Bool
is_hub_type PdoType.dummy = true
is_hub_type PdoType.client_pipe = true
is_hub_type _ = false

unfoldable pub is_expected_type : PdoType → PdoExpected → Bool
unfolding is_motor_type is_imu_type is_power_type is_ft_type is_valve_type is_pump_type
    is_gripper_type
is_expected_type t PdoExpected.motor = is_motor_type t
is_expected_type t PdoExpected.imu = is_imu_type t
is_expected_type t PdoExpected.power_board = is_power_type t
is_expected_type t PdoExpected.force_torque = is_ft_type t
is_expected_type t PdoExpected.valve = is_valve_type t
is_expected_type t PdoExpected.pump = is_pump_type t
is_expected_type t PdoExpected.gripper = is_gripper_type t
