-- ===== src/Config/Yaml.antt =====
-- yaml-cpp is not in the repository: an interface of the operations that the configuration code calls.
use ecat_middleware_advr.Prelude.{ℕ, ◌≡◌, Bool, List, Option, some, Text, Result, ok}

-- What the configuration code throws: `ConfigError`, or an exception of yaml-cpp that it does not
-- catch, each with the text of `what()`.
pub data ConfigException : Type 0 where
  config_error : Text → ConfigException
  yaml_error : Text → ConfigException

abbrev pub Outcome : Type 0 → Type 0
Outcome A = Result ConfigException A

pub record Yaml : Type 1 where
  pub Node : Type 0
  -- `node[key]` of a mapping; `none` is an undefined node.
  pub get : Node → Text → Option Node
  pub is_map : Node → Bool
  pub is_scalar : Node → Bool
  -- The pairs of a mapping, in the order of iteration.
  pub entries : Node → List (Node × Node)
  pub size : Node → ℕ
  -- `as<std::string>()` and `as<bool>()`; an error is the text of the exception.
  pub as_string : Node → Result Text Text
  pub as_bool : Node → Result Text Bool
  -- A new empty mapping, and a new mapping with one key and a text.
  pub empty_map : Node
  pub single : Text → Text → Node
  -- The text that was put under a key is found there.
  pub get-single :
      (key text : Text)
      → (n : Node) × (get (single key text) key ≡ some n) × (as_string n ≡ ok text)
