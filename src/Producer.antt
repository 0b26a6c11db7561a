-- ===== src/Producer.antt =====
-- src/producer.cpp of core/advrf_middleware_core: a stand-in for the master that fills the shared memory.
-- The floating-point operations are an interface, the clock is an argument, and a queue of the shared
-- memory is a state with the step of a push.
pub mod Pdos
pub mod Master
pub mod Told
pub mod Unseen
pub mod Replies
use ecat_middleware_advr.Prelude.{
  ℕ, ℤ, pos, negsuc, suc, ◌/◌, ◌%◌, ◌++◌, Bool, true, [], Text, codes, to_int32, to_string,
}
use ecat_middleware_advr.Pdo.{PdoType, PdoMessage}
use ecat_middleware_advr.Converter.Received.{
  ImuVnRxPdo, Cia402RxPdo, HyqKneeRxPdo, HyqHpuRxPdo, GripperRxPdo, PowF28m36RxPdo, Ft6RxPdo,
}

-- What is called of `double` and `float`. `decimal m d` is the literal m / 10^d.
pub record Reals (D V : Type 0) : Type 0 where
  pub sin : D → D
  pub cos : D → D
  pub plus : D → D → D
  pub times : D → D → D
  pub decimal : ℕ → ℕ → D
  pub of_int : ℤ → D
  pub to_float : D → V
  -- The conversions to an integer field.
  pub truncated : D → ℤ
  pub truncated_float : V → ℤ

pub data RxPayload (V : Type 0) : Type 0 where
  cia402 : Cia402RxPdo V → RxPayload V
  gripper : GripperRxPdo V → RxPayload V
  hyq_knee : HyqKneeRxPdo V → RxPayload V
  imu_vn : ImuVnRxPdo V → RxPayload V
  pow_f28m36 : PowF28m36RxPdo V → RxPayload V
  hyq_hpu : HyqHpuRxPdo V → RxPayload V
  ft6 : Ft6RxPdo V → RxPayload V

-- A PDO as the producer fills it.
pub record RxPdo (V : Type 0) : Type 0 where
  pub type : PdoType
  pub str_id : Text
  pub index : ℤ
  pub sec : ℤ
  pub nsec : ℤ
  pub payload : RxPayload V

instance abbrev pub rx_pdo_message : {V : Type 0} → PdoMessage (RxPdo V)
rx_pdo_message = record {
  pdo_type = λ pdo. pdo.type;
  has_header = λ pdo. true;
  has_index = λ pdo. true;
  index = λ pdo. pdo.index;
  has_str_id = λ pdo. true;
  str_id = λ pdo. pdo.str_id;
  has_stamp = λ pdo. true;
  sec = λ pdo. pdo.sec;
  nsec = λ pdo. pdo.nsec;
}

-- `std::to_string` of an `int`.
unfoldable pub int_text : ℤ → Text
int_text (pos n) = to_string n
int_text (negsuc n) = codes "-" ++ to_string (suc n)

-- A PDO before its header is set.
abbrev pub headless : {V : Type 0} → PdoType → RxPayload V → RxPdo V
headless type payload = record {
  type = type;
  str_id = [];
  index = pos 0;
  sec = pos 0;
  nsec = pos 0;
  payload = payload;
}

-- `now_ns` is the reading of the steady clock.
unfoldable pub set_pdo_header : {V : Type 0} → Text → ℕ → ℕ → RxPdo V → RxPdo V
set_pdo_header id sample_index now_ns pdo = record pdo {
  str_id = id;
  index = to_int32 sample_index;
  sec = to_int32 (now_ns / 1000000000);
  nsec = to_int32 (now_ns % 1000000000);
}
