-- ===== src/Converter.antt =====
-- The DDS conversions of plugins/advrf_dds_common (src/converter.cpp): messages of the DDS interface
-- (interfaces/advrf_interfaces_dds/idl) to and from the protobuf messages of the master. Integers and
-- texts are themselves; a floating-point value is of the type `V`, which the conversions only copy.
pub mod Messages
pub mod Protobuf
pub mod Commands
pub mod MotorTx
pub mod Received
pub mod State
use ecat_middleware_advr.Prelude.{ℕ, List, [], ◌∷◌, ◌++◌, Option, none, some}

-- What the conversions do with a floating-point type: its zero, and the conversion to `float`.
pub record Number (V : Type 0) : Type 0 where
  pub zero_value : V
  pub to_float : V → V

-- `push_back`, and the `add_x` of a repeated field.
abbrev pub push_back {ℓ} : {A : Type ℓ} → List A → A → List A
push_back xs x = xs ++ x ∷ []

-- `mutable_x` of an optional field: the message of the field, a default one where it is absent.
abbrev pub mutable {ℓ} : {A : Type ℓ} → A → Option A → A
mutable d none = d
mutable d (some a) = a
