-- ===== src/Config/Robot.antt =====
-- config/robot_config.hpp of core/advrf_middleware_core: the identity of the robot and the names of
-- its EtherCAT devices.
pub mod Accepted
use ecat_middleware_advr.Prelude.{
  ℕ, ◌+◌, ◌≡◌, Bool, true, false, ◌&&◌, ◌||◌, not, List, [], ◌∷◌, ◌++◌, Option, none, some,
  if◌then◌else◌, ltb, Text, codes, is_empty, Result, ok, err, ◌>>=◌, ◌>>◌, guard, u32_mod, ◌==◌,
  contains, map,
}
use ecat_middleware_advr.Config.Yaml.{Yaml, ConfigException, config_error, yaml_error, Outcome}
use ecat_middleware_advr.Config.File.{section, check_keys, value, unsigned_value, load}

-- The device names are an association list, the map's keys once each.
pub record RobotConfig : Type 0 where
  pub robot_name : Text
  pub ns : Text
  pub map_ecat_id : List (ℕ × Text)

abbrev pub empty_robot : RobotConfig
empty_robot = record { robot_name = []; ns = []; map_ecat_id = [] }

-- `map_ecat_id[id] = name`.
unfoldable pub set_name : ℕ → Text → List (ℕ × Text) → List (ℕ × Text)
set_name id name [] = (id, name) ∷ []
set_name id name ((j, old) ∷ names) =
    if j == id then (id, name) ∷ names else (j, old) ∷ set_name id name names

abbrev pub is_some {ℓ} : {A : Type ℓ} → Option A → Bool
is_some none = false
is_some (some a) = true

unfoldable pub validate : RobotConfig → Outcome (Unit {0})
validate cfg =
    guard (not (is_empty cfg.robot_name)) (config_error (codes "robot.name: must not be empty"))
    >> (guard (not (is_empty cfg.map_ecat_id))
          (config_error (codes "robot.joint_map: at least one device is required for discovery"))
        >> guard (not (contains cfg.robot_name b'/'))
            (config_error (codes "robot.name: must be a single topic component")))

-- `extract_pdo_ids`: the keys, as a set.
abbrev pub ids_of : List (ℕ × Text) → List ℕ
ids_of [] = []
ids_of ((id, name) ∷ names) = id ∷ ids_of names

unfoldable pub extract_pdo_ids : RobotConfig → List ℕ
extract_pdo_ids cfg = ids_of cfg.map_ecat_id

module _ (y : Yaml) where
  open y use {Node, get, entries, as_string, single}

  abbrev pub is_modern : Node → Bool
  is_modern root = is_some (get root (codes "robot"))

  unfoldable pub merge_robot_identity : RobotConfig → Node → Outcome RobotConfig
  merge_robot_identity cfg root =
      let path = if is_modern root then codes "robot" else codes "dds" in
      section y root path [] >>= λ node.
      (if is_modern root
        then check_keys y node (codes "name" ∷ codes "namespace" ∷ codes "joint_map" ∷ [])
            (codes "robot")
        else ok tt)
      >> (value y as_string node (if is_modern root then codes "name" else codes "robot_name")
            cfg.robot_name path
          >>= λ robot_name. value y as_string node (codes "namespace") cfg.ns path >>= λ ns.
              ok (record cfg { robot_name = robot_name; ns = ns }))

  -- What is caught in the loop: an exception of yaml-cpp becomes a `ConfigError` with the path.
  unfoldable pub text_at : Text → Node → Outcome Text
  text_at path node = elim (as_string node) [
    | ok text ↦ ok text
    | err what ↦ err (config_error (path ++ codes ": " ++ what))
  ]

  -- The checks of one round of the loop of `merge_robot_id_map`, and the write.
  unfoldable pub store_joint : Text → RobotConfig → ℕ → Text → Outcome RobotConfig
  store_joint path cfg id name =
      guard (not (id == 0 || is_empty name))
        (config_error (path ++ codes ": IDs must be positive and names nonempty"))
      >> (guard (ltb id u32_mod) (config_error (path ++ codes ": EtherCAT ID out of range"))
          >> ok (record cfg { map_ecat_id = set_name id name cfg.map_ecat_id }))

  -- One round of the loop.
  unfoldable pub merge_joint : Text → RobotConfig → Node × Node → Outcome RobotConfig
  merge_joint path cfg (first, second) = text_at path first >>= λ key.
      unsigned_value y (single (codes "id") key) (codes "id") 0 path >>= λ id.
      text_at path second >>= λ name. store_joint path cfg id name

  unfoldable pub merge_joints : Text → RobotConfig → List (Node × Node) → Outcome RobotConfig
  merge_joints path cfg [] = ok cfg
  merge_joints path cfg (joint ∷ joints) =
      merge_joint path cfg joint >>= λ next. merge_joints path next joints

  -- The mapping of the devices: under `robot` in a new file, at the top of an old one.
  unfoldable pub joint_map : Node → Outcome Node
  joint_map root =
      (if is_modern root then section y root (codes "robot") [] else ok root) >>= λ parent.
      section y parent (codes "joint_map") (if is_modern root then codes "robot" else [])

  unfoldable pub merge_robot_id_map : RobotConfig → Node → Outcome RobotConfig
  merge_robot_id_map cfg root = joint_map root >>= λ joints.
      merge_joints (if is_modern root then codes "robot.joint_map" else codes "joint_map") cfg
        (entries joints)

  -- The `robot_id_map` root is that of the file itself, or the one to which EC_CFG leads.
  unfoldable pub parse_with_map : Node → Outcome Node → Outcome RobotConfig
  parse_with_map root id_map = merge_robot_identity empty_robot root >>= λ named.
      id_map >>= λ map_root. merge_robot_id_map named map_root >>= λ cfg. validate cfg >> ok cfg

  unfoldable pub parse_robot_config : Node → Outcome RobotConfig
  unfolding parse_with_map
  parse_robot_config root = parse_with_map root (ok root)

  -- `env` is what EC_CFG leads to, where it is set: the loaded robot ID map, or an error.
  unfoldable pub parse_runtime_robot_config : Node → Option (Outcome Node) → Outcome RobotConfig
  unfolding parse_robot_config
  parse_runtime_robot_config root none = parse_robot_config root
  parse_runtime_robot_config root (some id_map) = parse_with_map root id_map
