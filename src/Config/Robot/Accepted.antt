-- ===== src/Config/Robot/Accepted.antt =====
-- What a robot configuration holds once config/robot_config.hpp has accepted it.
use ecat_middleware_advr.Prelude.{
  ℕ, ◌<◌, ◌≡◌, refl, ◌≢◌, sym, subst, false, ◌||◌, List, [], ◌∷◌, Option, none, some, arith,
  if◌then◌else◌, Text, codes, is_empty, ok, ◌>>=◌, u32_mod, inl, inr, >>=-eq-ok, ok-injective, All,
  contains, Distinct, ◌==◌, Bool-cases, ==_iff,
}
use ecat_middleware_advr.Pdo.Ids.{find_name}
use ecat_middleware_advr.Config.Yaml.{Yaml, Outcome}
use ecat_middleware_advr.Config.File.{unsigned_value}
use ecat_middleware_advr.Config.Robot.{
  RobotConfig, set_name, validate, ids_of, joint_map, store_joint, merge_joint, merge_joints,
  merge_robot_id_map, merge_robot_identity, parse_with_map, text_at, parse_runtime_robot_config,
  empty_robot,
}

-- A device of the map: its ID is positive and a `uint32_t`, and its name is not empty.
abbrev pub IsDevice : ℕ × Text → Type 0
IsDevice (id, name) = (0 < id) × (id < u32_mod) × (is_empty name ≡ false)

pub set_name-IsDevice :
    (id : ℕ) (name : Text) (names : List (ℕ × Text))
    → IsDevice (id, name)
    → All IsDevice names
    → All IsDevice (set_name id name names)
unfolding set_name
set_name-IsDevice id name [] d h = (d, tt)
set_name-IsDevice id name ((j, old) ∷ names) d h = elim (Bool-cases (j == id)) [
  | inl e ↦ rw e (d, h.1)
  | inr e ↦ rw e (h.0, set_name-IsDevice id name names d h.1)
]

contains-set_name :
    (id : ℕ) (name : Text) (names : List (ℕ × Text)) (k : ℕ)
    → contains (ids_of (set_name id name names)) k ≡ (id == k || contains (ids_of names) k)
unfolding set_name contains
contains-set_name id name [] k = ground arith
contains-set_name id name ((j, old) ∷ names) k = ground (arith, contains-set_name id name names k)

-- No ID gets two entries.
pub set_name-Distinct :
    (id : ℕ) (name : Text) (names : List (ℕ × Text))
    → Distinct (ids_of names)
    → Distinct (ids_of (set_name id name names))
unfolding set_name
set_name-Distinct id name [] d = (unfold contains in refl, tt)
set_name-Distinct id name ((j, old) ∷ names) d = elim (Bool-cases (j == id)) [
  | inl e ↦ rw e (subst (λ k. contains (ids_of names) k ≡ false) ((==_iff j id).0 e) d.0, d.1)
  | inr e ↦
      rw e (ground (arith, contains-set_name id name names j), set_name-Distinct id name names d.1)
]

-- The name set last is the one found.
pub find_name-set_name :
    (id : ℕ) (name : Text) (names : List (ℕ × Text)) (k : ℕ)
    → find_name (set_name id name names) k ≡ (if id == k then some name else find_name names k)
unfolding set_name find_name
find_name-set_name id name [] k = refl
find_name-set_name id name ((j, old) ∷ names) k = ground (arith, find_name-set_name id name names k)

-- A map of devices, each in range and once.
abbrev pub IsDeviceMap : RobotConfig → Type 0
IsDeviceMap cfg = All IsDevice cfg.map_ecat_id × Distinct (ids_of cfg.map_ecat_id)

pub validate_lem :
    (cfg : RobotConfig)
    → validate cfg ≡ ok tt
    → (is_empty cfg.robot_name ≡ false)
      × (cfg.map_ecat_id ≢ [])
      × (contains cfg.robot_name b'/' ≡ false)
unfolding validate
validate_lem cfg h = ground arith

-- What an accepted configuration is: the robot is named by one component of a topic, there is at
-- least one device, and the devices' IDs are positive, in range and different, their names not empty.
pub record IsAccepted (cfg : RobotConfig) : Type 0 where
  pub named : is_empty cfg.robot_name ≡ false
  pub one_component : contains cfg.robot_name b'/' ≡ false
  pub some_device : cfg.map_ecat_id ≢ []
  pub devices : All IsDevice cfg.map_ecat_id
  pub distinct : Distinct (ids_of cfg.map_ecat_id)

module _ (y : Yaml) where
  open y use {Node, as_string, entries}

  store_joint-IsDeviceMap :
      (path : Text) (cfg : RobotConfig) (id : ℕ) (name : Text) {next : RobotConfig}
      → store_joint y path cfg id name ≡ ok next
      → IsDeviceMap cfg
      → IsDeviceMap next
  unfolding store_joint
  store_joint-IsDeviceMap path cfg id name {next} h d =
      let positive : 0 < id = ground arith in
      let small : id < u32_mod = ground arith in
      let named : is_empty name ≡ false = ground arith in
      let stored : set_name id name cfg.map_ecat_id ≡ next.map_ecat_id = ground arith in
      subst (λ m. All IsDevice m × Distinct (ids_of m)) stored
        (
          set_name-IsDevice id name cfg.map_ecat_id (positive, small, named) d.0,
          set_name-Distinct id name cfg.map_ecat_id d.1,
        )

  merge_joint-IsDeviceMap :
      (path : Text) (cfg : RobotConfig) (joint : Node × Node) {next : RobotConfig}
      → merge_joint y path cfg joint ≡ ok next
      → IsDeviceMap cfg
      → IsDeviceMap next
  unfolding merge_joint
  merge_joint-IsDeviceMap path cfg (first, second) {next} h d =
      let (key, _, h₁) =
        >>=-eq-ok (text_at y path first)
          (λ key. unsigned_value y (y.single (codes "id") key) (codes "id") 0 path >>= λ id.
            text_at y path second >>= λ name. store_joint y path cfg id name)
          h in
      let (id, _, h₂) =
        >>=-eq-ok (unsigned_value y (y.single (codes "id") key) (codes "id") 0 path)
          (λ id. text_at y path second >>= λ name. store_joint y path cfg id name) h₁ in
      let (name, _, h₃) = >>=-eq-ok (text_at y path second) (store_joint y path cfg id) h₂ in
      store_joint-IsDeviceMap path cfg id name h₃ d

  merge_joints-IsDeviceMap :
      (path : Text) (cfg : RobotConfig) (joints : List (Node × Node)) {next : RobotConfig}
      → merge_joints y path cfg joints ≡ ok next
      → IsDeviceMap cfg
      → IsDeviceMap next
  unfolding merge_joints
  merge_joints-IsDeviceMap path cfg [] h d = subst IsDeviceMap (ok-injective h) d
  merge_joints-IsDeviceMap path cfg (joint ∷ joints) h d =
      let (middle, h₁, h₂) =
        >>=-eq-ok (merge_joint y path cfg joint) (λ next. merge_joints y path next joints) h in
      merge_joints-IsDeviceMap path middle joints h₂ (merge_joint-IsDeviceMap path cfg joint h₁ d)

  pub merge_robot_id_map-IsDeviceMap :
      (cfg : RobotConfig) (root : Node) {next : RobotConfig}
      → merge_robot_id_map y cfg root ≡ ok next
      → IsDeviceMap cfg
      → IsDeviceMap next
  unfolding merge_robot_id_map
  merge_robot_id_map-IsDeviceMap cfg root h d =
      let (joints, _, h₁) = >>=-eq-ok (joint_map y root) _ h in
      merge_joints-IsDeviceMap _ cfg (entries joints) h₁ d

  -- Reading the identity keeps the devices.
  pub merge_robot_identity-map :
      (cfg : RobotConfig) (root : Node) {next : RobotConfig}
      → merge_robot_identity y cfg root ≡ ok next
      → next.map_ecat_id ≡ cfg.map_ecat_id
  unfolding merge_robot_identity
  merge_robot_identity-map cfg root {next} h = ground arith

  parse_with_map-IsAccepted :
      (root : Node) (id_map : Outcome Node) {cfg : RobotConfig}
      → parse_with_map y root id_map ≡ ok cfg
      → IsAccepted cfg
  unfolding parse_with_map
  parse_with_map-IsAccepted root id_map {cfg} h =
      let (named, h_named, h₁) = >>=-eq-ok (merge_robot_identity y empty_robot root) _ h in
      let (map_root, _, h₂) = >>=-eq-ok id_map _ h₁ in
      let (merged, h_merged, h₃) = >>=-eq-ok (merge_robot_id_map y named map_root) _ h₂ in
      let (_, valid, h₄) = >>=-eq-ok (validate merged) _ h₃ in
      let e : merged ≡ cfg = ok-injective h₄ in
      let empty : IsDeviceMap named =
        subst (λ m. All IsDevice m × Distinct (ids_of m))
          (sym (merge_robot_identity-map empty_robot root h_named)) (tt, tt) in
      let map = merge_robot_id_map-IsDeviceMap named map_root h_merged empty in
      let ok_merged = validate_lem merged valid in
      subst IsAccepted e (record {
        named = ok_merged.0;
        one_component = ok_merged.2;
        some_device = ok_merged.1;
        devices = map.0;
        distinct = map.1;
      })

  -- Every configuration that `parse_runtime_robot_config` returns is accepted in this sense, with the
  -- joint map of the file itself and with that of EC_CFG.
  pub parse_runtime_robot_config-IsAccepted :
      (root : Node) (env : Option (Outcome Node)) {cfg : RobotConfig}
      → parse_runtime_robot_config y root env ≡ ok cfg
      → IsAccepted cfg
  unfolding parse_runtime_robot_config
  parse_runtime_robot_config-IsAccepted root none h = parse_with_map-IsAccepted root (ok root) h
  parse_runtime_robot_config-IsAccepted root (some id_map) h =
      parse_with_map-IsAccepted root id_map h
