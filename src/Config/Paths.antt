-- ===== src/Config/Paths.antt =====
-- config/config_file.hpp of core/advrf_middleware_core: the file that EC_CFG leads to, and the paths in it.
-- The file system, which does not change between two calls of one function, and `std::filesystem::path` are
-- an interface; the value of EC_CFG is an argument.
pub mod Referenced
use ecat_middleware_advr.Prelude.{
  Bool, true, false, ◌&&◌, not, List, [], ◌∷◌, ◌++◌, Option, none, some, if◌then◌else◌, Text, codes,
  is_empty, Result, ok, err, ◌>>=◌, ◌>>◌, guard,
}
use ecat_middleware_advr.Config.Yaml.{Yaml, config_error, Outcome}
use ecat_middleware_advr.Config.File.{section, value, load}
use ecat_middleware_advr.Config.Robot.{is_some}
use ecat_middleware_advr.Config.Reference.{expand}

-- What is called of `std::filesystem`, and `YAML::LoadFile`. An error is the text of the exception.
pub record FileSystem (Node : Type 0) : Type 1 where
  pub FilePath : Type 0
  pub of_string : Text → FilePath
  pub string : FilePath → Text
  pub is_absolute : FilePath → Bool
  pub parent_path : FilePath → FilePath
  -- `operator/`.
  pub join : FilePath → FilePath → FilePath
  pub lexically_normal : FilePath → FilePath
  pub canonical : Text → Result Text FilePath
  pub absolute : FilePath → Result Text FilePath
  pub load_file : FilePath → Result Text Node

pub record ConfigFile (Node FilePath : Type 0) : Type 0 where
  pub root : Node
  pub path : FilePath

module _ (y : Yaml) (fs : FileSystem y.Node) where
  open y use {Node, get, is_scalar, as_string}
  open fs use {
    FilePath, of_string, string, is_absolute, parent_path, join, lexically_normal, canonical,
    absolute, load_file,
  }

  -- `ConfigFile::load`.
  unfoldable pub load_config : FilePath → Outcome (ConfigFile Node FilePath)
  load_config path = load y (string path) (load_file path) >>= λ root. elim (absolute path) [
    | ok file ↦ ok (record { root = root; path = file })
    | err what ↦ err (config_error (string path ++ codes ": " ++ what))
  ]

  unfoldable pub resolve : ConfigFile Node FilePath → Text → FilePath
  resolve file reference =
      let target = of_string reference in
      if is_absolute target then target else lexically_normal (join (parent_path file.path) target)

  -- The file that EC_CFG leads to, with the checks of `robot_config_directory`.
  unfoldable pub robot_config_file : Option Text → Outcome FilePath
  robot_config_file none =
      err
        (config_error (codes "EC_CFG: set the environment variable to the robot ec_cfg.yaml file"))
  robot_config_file (some []) =
      err
        (config_error (codes "EC_CFG: set the environment variable to the robot ec_cfg.yaml file"))
  robot_config_file (some (c ∷ env)) = elim (canonical (c ∷ env)) [
    | ok path ↦ ok path
    | err what ↦ err (config_error (codes "EC_CFG: " ++ (c ∷ env) ++ codes ": " ++ what))
  ]

  unfoldable pub robot_config_directory : Option Text → Outcome FilePath
  unfolding robot_config_file
  robot_config_directory env = robot_config_file env >>= λ file. ok (parent_path file)

  -- `settings[key] && !settings[key].IsScalar()`.
  abbrev pub is_scalar_or_none : Option Node → Bool
  is_scalar_or_none none = true
  is_scalar_or_none (some node) = is_scalar node

  abbrev at_key : ConfigFile Node FilePath → Text → Text → Text
  at_key file section_name key = string file.path ++ codes ": " ++ section_name ++ codes "." ++ key

  -- The text under a key of a section, which has to be there.
  unfoldable pub reference_text : ConfigFile Node FilePath → Text → Text → Outcome Text
  reference_text file section_name key = section y file.root section_name [] >>= λ settings.
      guard (is_scalar_or_none (get settings key))
        (config_error (at_key file section_name key ++ codes ": expected a path string"))
      >> (value y as_string settings key [] section_name >>= λ folder.
          guard (not (is_empty folder))
            (config_error (at_key file section_name key ++ codes ": required"))
          >> ok folder)

  unfoldable pub config_reference : Option Text → Text → Text → Outcome FilePath
  unfolding robot_config_directory robot_config_file load_config reference_text
  config_reference env section_name key = robot_config_directory env >>= λ directory.
      robot_config_file env >>= λ path. load_config path >>= λ file.
      reference_text file section_name key >>= λ folder.
      ok (lexically_normal (resolve file (expand (string directory) folder)))

  unfoldable pub robot_config_reference : Option Text → Text → Outcome FilePath
  unfolding config_reference
  robot_config_reference env key = config_reference env (codes "robot") key

  abbrev pub in_folder : FilePath → Outcome FilePath
  in_folder folder = ok (join folder (of_string (codes "config.yaml")))

  unfoldable pub middleware_config_path : Option Text → Outcome FilePath
  unfolding robot_config_directory robot_config_file load_config robot_config_reference
  middleware_config_path env = robot_config_directory env >>= λ directory.
      robot_config_file env >>= λ path. load_config path >>= λ file.
      section y file.root (codes "middleware") [] >>= λ middleware.
      if is_some (get middleware (codes "folder"))
      then (config_reference env (codes "middleware") (codes "folder") >>= in_folder)
      else (section y file.root (codes "robot") [] >>= λ robot.
          if is_some (get robot (codes "robot_middleware_folder"))
          then (robot_config_reference env (codes "robot_middleware_folder") >>= in_folder)
          else err (config_error (string file.path ++ codes ": middleware.folder: required")))

  unfoldable pub robot_id_map_path : Option Text → Outcome FilePath
  unfolding robot_config_reference
  robot_id_map_path env = robot_config_reference env (codes "robot_id_map_path")
