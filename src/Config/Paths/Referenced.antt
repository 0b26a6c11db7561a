-- ===== src/Config/Paths/Referenced.antt =====
-- Which path config/config_file.hpp of core/advrf_middleware_core makes of a reference.
use ecat_middleware_advr.Prelude.{◌≡◌, true, false, [], Option, some, Text, codes, is_empty, ok}
use ecat_middleware_advr.Config.Yaml.{Yaml}
use ecat_middleware_advr.Config.File.{section, value}
use ecat_middleware_advr.Config.Reference.Expanded.{substituted}
use ecat_middleware_advr.Config.Paths.{FileSystem, ConfigFile, is_scalar_or_none}

-- Both tokens replaced, the one with braces first.
abbrev pub expanded : Text → Text → Text
expanded directory folder =
    substituted (codes "$PWD") directory 0 (substituted (codes "${PWD}") directory 0 folder)

module _ (y : Yaml) (fs : FileSystem y.Node) where
  open y use {Node, get, is_scalar, as_string}
  open fs use {FilePath, parent_path, lexically_normal, string, canonical}

  -- A text of the file that a reference can be: a scalar that is not empty, under the key of the section.
  pub record IsReference (file : ConfigFile Node FilePath) (section_name key folder : Text)
      : Type 0 where
    pub settings : Node
    pub found : section y file.root section_name [] ≡ ok settings
    pub scalar : is_scalar_or_none y fs (get settings key) ≡ true
    pub read : value y as_string settings key [] section_name ≡ ok folder
    pub given : is_empty folder ≡ false

  -- EC_CFG is set, not empty, and leads to a file.
  pub record LeadsTo (env : Option Text) (path : FilePath) : Type 0 where
    pub text : Text
    pub set : env ≡ some text
    pub nonempty : is_empty text ≡ false
    pub found : canonical text ≡ ok path
