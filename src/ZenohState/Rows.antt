-- ===== src/ZenohState/Rows.antt =====
-- The joint states that the serialiser of src/ros2cdr.cpp in plugins/advrf_zenoh_plugin makes of a list
-- of PDOs.
use ecat_middleware_advr.Prelude.{
  ◌≡◌, refl, sym, Bool, true, false, inl, inr, Bool-cases, List, [], ◌∷◌, append-nil, Option, none,
  some, ok, ◌>>=◌, last_or,
}
use ecat_middleware_advr.Pdo.{PdoType, PdoMessage}
use ecat_middleware_advr.Converter.{Number}
use ecat_middleware_advr.Converter.Received.{PdoPayloads, JointStateMsg, empty_joint_state}
use ecat_middleware_advr.Converter.State.{
  joint_from_cia402, joint_from_xt_motor, joint_from_motor, joint_from_gripper, joint_from_hyq_knee,
}
use ecat_middleware_advr.DdsPublishers.Joints.{JointRow, Appended, Appended-cons}
use ecat_middleware_advr.ZenohState.{
  Serialized, has_valid_header, header_for, append_all, finish_aggregate, appended_then,
  serialize_aggregate, append_joint_type, serialize_joint_state,
}

module _ {V : Type 0} where
  -- The rows with one more, or none if a PDO has no stamped header or is no joint.
  abbrev pub add_row :
      Bool → Option (JointRow V) → Option (List (JointRow V)) → Option (List (JointRow V))
  add_row false row rows = none
  add_row true none rows = none
  add_row true (some row) none = none
  add_row true (some row) (some rows) = some (row ∷ rows)

  -- What a serialiser makes of a message and of rows: nothing, or the message with the rows behind it.
  abbrev pub SerializedRows :
      JointStateMsg V → Option (List (JointRow V)) → Serialized (JointStateMsg V) → Type 0
  SerializedRows m none result = result ≡ ok none
  SerializedRows m (some rows) result =
      (m' : JointStateMsg V) × Appended m rows m' × (result ≡ ok (some m'))

  abbrev Step : JointStateMsg V → Option (JointRow V) → Serialized (JointStateMsg V) → Type 0
  Step m none result = result ≡ ok none
  Step m (some row) result =
      (m' : JointStateMsg V) × Appended m (row ∷ []) m' × (result ≡ ok (some m'))

module _ {Pdo V : Type 0} ⦃p : PdoMessage Pdo⦄ ⦃q : PdoPayloads Pdo V⦄ ⦃n : Number V⦄ where
  -- The row of a PDO by its type, under the name in its header: none for what is no joint.
  unfoldable pub state_row : PdoType → Pdo → Option (JointRow V)
  state_row PdoType.rx_cia402 pdo =
      let s = q.cia402_rx_pdo pdo in
      some (record {
        name = p.str_id pdo;
        position = s.link_pos;
        velocity = s.link_vel;
        effort = s.torque;
      })
  state_row PdoType.rx_xt_motor pdo =
      let s = q.motor_xt_rx_pdo pdo in
      some (record {
        name = p.str_id pdo;
        position = s.link_pos;
        velocity = s.link_vel;
        effort = s.torque;
      })
  state_row PdoType.rx_motor pdo =
      let s = q.motor_rx_pdo pdo in
      some (record {
        name = p.str_id pdo;
        position = s.link_pos;
        velocity = n.zero_value;
        effort = n.to_float s.torque;
      })
  state_row PdoType.rx_gripper pdo = some (record {
    name = p.str_id pdo;
    position = (q.gripper_rx_pdo pdo).link_pos;
    velocity = n.zero_value;
    effort = n.zero_value;
  })
  state_row PdoType.rx_hyq_knee pdo = some (record {
    name = p.str_id pdo;
    position = n.zero_value;
    velocity = n.zero_value;
    effort = (q.hyqknee_rx_pdo pdo).force;
  })
  state_row _ pdo = none

  unfoldable pub state_rows : List Pdo → Option (List (JointRow V))
  state_rows [] = some []
  state_rows (pdo ∷ pdos) =
      add_row (has_valid_header pdo) (state_row (p.pdo_type pdo) pdo) (state_rows pdos)

  append_joint_type_lem :
      (t : PdoType) (pdo : Pdo) (m : JointStateMsg V)
      → Step m (state_row t pdo) (append_joint_type t pdo m)
  unfolding append_joint_type state_row joint_from_cia402 joint_from_xt_motor joint_from_motor
      joint_from_gripper joint_from_hyq_knee
  append_joint_type_lem PdoType.rx_cia402 pdo m = (_, (refl, refl, refl, refl), refl)
  append_joint_type_lem PdoType.rx_xt_motor pdo m = (_, (refl, refl, refl, refl), refl)
  append_joint_type_lem PdoType.rx_motor pdo m = (_, (refl, refl, refl, refl), refl)
  append_joint_type_lem PdoType.rx_gripper pdo m = (_, (refl, refl, refl, refl), refl)
  append_joint_type_lem PdoType.rx_hyq_knee pdo m = (_, (refl, refl, refl, refl), refl)
  append_joint_type_lem _ pdo m = refl

  abbrev joints_appended : List Pdo → JointStateMsg V → Serialized (JointStateMsg V)
  joints_appended =
      append_all empty_joint_state (λ h m. record m { header = h })
        (λ pdo m. append_joint_type (p.pdo_type pdo) pdo m)

  add_row-Serialized :
      (m : JointStateMsg V) (pdos : List Pdo) (row : Option (JointRow V))
      (rows : Option (List (JointRow V))) (result : Serialized (JointStateMsg V))
      → Step m row result
      → ((m' : JointStateMsg V) → SerializedRows m' rows (joints_appended pdos m'))
      → SerializedRows m
          (add_row true row rows)
          (result >>= λ r. appended_then (joints_appended pdos) r)
  add_row-Serialized m pdos none rows result step rest = rw step refl
  add_row-Serialized m pdos (some row) none result (m', one, is) rest = rw is (rest m')
  add_row-Serialized m pdos (some row) (some rows) result (m', one, is) rest =
      let (m2, more, ran) = rest m' in (m2, Appended-cons m m' m2 row rows one more, rw is ran)

  append_all-joints :
      (pdos : List Pdo) (m : JointStateMsg V)
      → SerializedRows m (state_rows pdos) (joints_appended pdos m)
  unfolding append_all state_rows
  append_all-joints [] m =
      (m, (sym (append-nil _), sym (append-nil _), sym (append-nil _), sym (append-nil _)), refl)
  append_all-joints (pdo ∷ pdos) m = elim (Bool-cases (has_valid_header pdo)) [
    | inl e ↦ rw e (
        add_row-Serialized m pdos (state_row (p.pdo_type pdo) pdo) (state_rows pdos)
          (append_joint_type (p.pdo_type pdo) pdo m) (append_joint_type_lem (p.pdo_type pdo) pdo m)
          (λ m'. append_all-joints pdos m'))
    | inr e ↦ rw e refl
  ]

  finished :
      (last : Pdo) (rows : Option (List (JointRow V))) (result : Serialized (JointStateMsg V))
      → SerializedRows empty_joint_state rows result
      → SerializedRows empty_joint_state rows
          (result >>= finish_aggregate empty_joint_state (λ h m. record m { header = h }) last)
  unfolding finish_aggregate
  finished last none result h = rw h refl
  finished last (some rows) result (m, appended, is) =
      (record m { header = header_for false last }, appended, rw is refl)

module _ {Pdo : Type 0} (V : Type 0) ⦃p : PdoMessage Pdo⦄ ⦃q : PdoPayloads Pdo V⦄
    ⦃n : Number V⦄ where
  -- A list of PDOs that is not empty is serialised exactly if each has a stamped header and is that of a
  -- motor, a gripper or a valve; the names, positions, velocities and efforts are then the rows of all
  -- PDOs in order. If one is not, nothing is serialised.
  pub serialize_joint_state_lem :
      (pdo : Pdo) (pdos : List Pdo)
      → SerializedRows {V = V} empty_joint_state
          (state_rows (pdo ∷ pdos))
          (serialize_joint_state (pdo ∷ pdos))
  unfolding serialize_joint_state serialize_aggregate
  serialize_joint_state_lem pdo pdos =
      finished (last_or pdo pdos) (state_rows (pdo ∷ pdos)) _
        (append_all-joints (pdo ∷ pdos) empty_joint_state)
