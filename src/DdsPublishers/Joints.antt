-- ===== src/DdsPublishers/Joints.antt =====
-- The joint-state message and the motors message of the DDS plugins, as functions of the PDOs of a cycle.
use ecat_middleware_advr.Prelude.{
  ℕ, ◌≡◌, refl, ap, ◌∙◌, sym, Bool, true, false, ◌&&◌, ◌||◌, not, if◌then◌else◌, List, [], ◌∷◌,
  ◌++◌, map, append-nil, append_assoc, Option, none, some, Text, Result, ok, arith, is_empty,
}
use ecat_middleware_advr.Pdo.{PdoType, PdoMessage}
use ecat_middleware_advr.Pdo.Clock.{ClockOffset}
use ecat_middleware_advr.Converter.{Number}
use ecat_middleware_advr.Converter.Received.{PdoPayloads, JointStateMsg, empty_joint_state}
use ecat_middleware_advr.Converter.State.{
  NullString, joint_from_cia402, joint_from_xt_motor, joint_from_motor, joint_from_gripper,
}
use ecat_middleware_advr.DdsPublishers.{
  Processed, PdoPublisher, begin_cycle, consume, consume_all, end_cycle, run_cycle,
}
use ecat_middleware_advr.DdsPublishers.Process.{
  Received, device_name, joint_process, joint_converted, joint_finished,
}

-- What one PDO adds to the joint states.
pub record JointRow (V : Type 0) : Type 0 where
  pub name : Text
  pub position : V
  pub velocity : V
  pub effort : V

module _ {V : Type 0} where
  abbrev pub cons_row : Option (JointRow V) → List (JointRow V) → List (JointRow V)
  cons_row none rows = rows
  cons_row (some row) rows = row ∷ rows

  -- The message's four sequences are `rows` behind the sequences of `m`.
  abbrev pub Appended : JointStateMsg V → List (JointRow V) → JointStateMsg V → Type 0
  Appended m rows m' =
      (m'.name ≡ m.name ++ map (λ (r : JointRow V). r.name) rows)
      × (m'.position ≡ m.position ++ map (λ (r : JointRow V). r.position) rows)
      × (m'.velocity ≡ m.velocity ++ map (λ (r : JointRow V). r.velocity) rows)
      × (m'.effort ≡ m.effort ++ map (λ (r : JointRow V). r.effort) rows)

  -- The two outcomes of one PDO.
  abbrev Step : JointStateMsg V → Option (JointRow V) → Processed (JointStateMsg V) → Type 0
  Step m none o = o ≡ Processed.ignored
  Step m (some row) o =
      (m' : JointStateMsg V) × (o ≡ Processed.updated m') × Appended m (row ∷ []) m'

  joined :
      {A : Type 0} (front : JointRow V → A) (xs ys zs : List A) (row : JointRow V)
      (rows : List (JointRow V))
      → ys ≡ xs ++ front row ∷ []
      → zs ≡ ys ++ map front rows
      → zs ≡ xs ++ map front (row ∷ rows)
  joined front xs ys zs row rows e f =
      f ∙ ap (λ s. s ++ map front rows) e ∙ append_assoc xs (front row ∷ []) (map front rows)

  pub Appended-cons :
      (m m1 m2 : JointStateMsg V) (row : JointRow V) (rows : List (JointRow V))
      → Appended m (row ∷ []) m1
      → Appended m1 rows m2
      → Appended m (row ∷ rows) m2
  Appended-cons m m1 m2 row rows (a, b, c, d) (a', b', c', d') = (
    joined (λ r. r.name) m.name m1.name m2.name row rows a a',
    joined (λ r. r.position) m.position m1.position m2.position row rows b b',
    joined (λ r. r.velocity) m.velocity m1.velocity m2.velocity row rows c c',
    joined (λ r. r.effort) m.effort m1.effort m2.effort row rows d d',
  )

-- Every PDO is a valve's.
abbrev pub AllValves : {Pdo : Type 0} ⦃p : PdoMessage Pdo⦄ → List (Received Pdo) → Type 0
AllValves [] = Unit
AllValves ⦃p⦄ (r ∷ rs) = (p.pdo_type r.pdo ≡ PdoType.rx_hyq_knee) × AllValves rs

module _ {Pdo V : Type 0} ⦃p : PdoMessage Pdo⦄ ⦃q : PdoPayloads Pdo V⦄ ⦃n : Number V⦄
    (g_offset : ClockOffset) (id_to_name : List (ℕ × Text)) where
  -- The row of a PDO by its type: none for what is neither a motor's nor a gripper's.
  unfoldable pub joint_row : PdoType → Pdo → Option (JointRow V)
  joint_row PdoType.rx_cia402 pdo =
      let s = q.cia402_rx_pdo pdo in
      some (record {
        name = device_name id_to_name pdo;
        position = s.link_pos;
        velocity = s.link_vel;
        effort = s.torque;
      })
  joint_row PdoType.rx_xt_motor pdo =
      let s = q.motor_xt_rx_pdo pdo in
      some (record {
        name = device_name id_to_name pdo;
        position = s.link_pos;
        velocity = s.link_vel;
        effort = s.torque;
      })
  joint_row PdoType.rx_motor pdo =
      let s = q.motor_rx_pdo pdo in
      some (record {
        name = device_name id_to_name pdo;
        position = s.link_pos;
        velocity = n.zero_value;
        effort = n.to_float s.torque;
      })
  joint_row PdoType.rx_gripper pdo = some (record {
    name = device_name id_to_name pdo;
    position = (q.gripper_rx_pdo pdo).link_pos;
    velocity = n.zero_value;
    effort = n.zero_value;
  })
  joint_row _ pdo = none

  unfoldable pub joint_rows : List (Received Pdo) → List (JointRow V)
  joint_rows [] = []
  joint_rows (r ∷ rs) = cons_row (joint_row (p.pdo_type r.pdo) r.pdo) (joint_rows rs)

  joint_process_lem :
      (m : JointStateMsg V) (r : Received Pdo)
      → Step m (joint_row (p.pdo_type r.pdo) r.pdo) (joint_process g_offset id_to_name m r)
  unfolding joint_process joint_converted joint_row joint_from_cia402 joint_from_xt_motor
      joint_from_motor joint_from_gripper
  joint_process_lem m r = by_type (p.pdo_type r.pdo)
    where
      by_type :
          (t : PdoType)
          → Step m
              (joint_row t r.pdo)
              (joint_finished g_offset id_to_name r (joint_converted g_offset id_to_name t m r.pdo))
      by_type PdoType.rx_cia402 = (_, refl, (refl, refl, refl, refl))
      by_type PdoType.rx_xt_motor = (_, refl, (refl, refl, refl, refl))
      by_type PdoType.rx_motor = (_, refl, (refl, refl, refl, refl))
      by_type PdoType.rx_gripper = (_, refl, (refl, refl, refl, refl))
      by_type _ = refl

  -- Consuming PDOs appends `rows`, and notes whether there was one.
  abbrev Consumed :
      PdoPublisher (JointStateMsg V) → List (Received Pdo) → List (JointRow V) → Type 0
  Consumed b rs rows =
      (b' : PdoPublisher (JointStateMsg V)) × (consume_all (joint_process g_offset id_to_name)
          empty_joint_state b rs
        ≡ ok b')
      × Appended b.message rows b'.message
      × (b'.has_update ≡ (b.has_update || not (is_empty rows)))

  Consumed-cons :
      (b : PdoPublisher (JointStateMsg V)) (r : Received Pdo) (rs : List (Received Pdo))
      (row : Option (JointRow V))
      → Step b.message row (joint_process g_offset id_to_name b.message r)
      → ((b : PdoPublisher (JointStateMsg V)) → Consumed b rs (joint_rows rs))
      → Consumed b (r ∷ rs) (cons_row row (joint_rows rs))
  unfolding consume_all consume
  Consumed-cons b r rs none step rest =
      let (b', ran, appended, flag) = rest b in (b', rw step ran, appended, flag)
  Consumed-cons b r rs (some row) (m', is, one) rest =
      let (b', ran, appended, flag) = rest (record { message = m'; has_update = true }) in
      (
        b',
        rw is ran,
        Appended-cons b.message m' b'.message row (joint_rows rs) one appended,
        ground arith,
      )

  consume_all-joint :
      (b : PdoPublisher (JointStateMsg V)) (rs : List (Received Pdo))
      → Consumed b rs (joint_rows rs)
  unfolding consume_all joint_rows
  consume_all-joint b [] = (
    b,
    refl,
    (sym (append-nil _), sym (append-nil _), sym (append-nil _), sym (append-nil _)),
    ground arith,
  )
  consume_all-joint b (r ∷ rs) =
      Consumed-cons b r rs (joint_row (p.pdo_type r.pdo) r.pdo) (joint_process_lem b.message r)
        (λ next. consume_all-joint next rs)

  -- A cycle of the joint states writes a message exactly if it is valid and has the PDO of a motor or of
  -- a gripper. The message's names, positions, velocities and efforts are the rows of those PDOs, in the
  -- order in which they came.
  pub joint_cycle_lem :
      (b : PdoPublisher (JointStateMsg V)) (rs : List (Received Pdo)) (valid : Bool)
      → (m : JointStateMsg V) × Appended empty_joint_state (joint_rows rs) m
        × (run_cycle (joint_process g_offset id_to_name) empty_joint_state b rs valid
            ≡ ok (if valid && not (is_empty (joint_rows rs)) then some m else none))
  unfolding run_cycle begin_cycle end_cycle
  joint_cycle_lem b rs valid =
      let start : PdoPublisher (JointStateMsg V) = record {
        message = empty_joint_state;
        has_update = false;
      } in
      let (b', ran, appended, flag) = consume_all-joint start rs in
      (b'.message, appended, rw (ran, flag) refl)

  valve_rows : (rs : List (Received Pdo)) → AllValves rs → joint_rows rs ≡ []
  unfolding joint_rows joint_row
  valve_rows [] h = refl
  valve_rows (r ∷ rs) h = rw (h.0, valve_rows rs h.1) refl

  -- A cycle with only PDOs of valves writes no joint states, although it is valid.
  pub joint_cycle-valves :
      (b : PdoPublisher (JointStateMsg V)) (rs : List (Received Pdo)) (valid : Bool)
      → AllValves rs
      → run_cycle (joint_process g_offset id_to_name) empty_joint_state b rs valid ≡ ok none
  joint_cycle-valves b rs valid h =
      let (m, _, ran) = joint_cycle_lem b rs valid in
      ran
      ∙ ap (λ rows. ok (if valid && not (is_empty rows) then some m else none)) (valve_rows rs h)
      ∙ none_written m
    where
      none_written :
          (m : JointStateMsg V)
          → ◌≡◌ {A = Result NullString (Option (JointStateMsg V))}
              (ok (if valid && false then some m else none))
              (ok none)
      none_written m = ground arith
