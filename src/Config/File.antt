-- ===== src/Config/File.antt =====
-- config/config_file.hpp of core/advrf_middleware_core: sections, known keys, values, and unsigned
-- integers of a YAML mapping.
pub mod Unsigned
use ecat_middleware_advr.Prelude.{
  ℕ, ◌+◌, ◌≡◌, Bool, true, false, ◌&&◌, ◌||◌, not, List, [], ◌∷◌, ◌++◌, Option, none, some,
  if◌then◌else◌, ltb, Text, codes, text_eq, is_empty, Result, ok, err, ◌>>=◌, ◌>>◌, guard,
  all_digits, decimal_from, to_string, u32_mod, ◌==◌, u64_mod,
}
use ecat_middleware_advr.Config.Yaml.{Yaml, ConfigException, config_error, yaml_error, Outcome}

abbrev pub dot : Text → Text → Text
dot path key = path ++ codes "." ++ key

-- `std::find` over a list of texts.
unfoldable pub has_text : List Text → Text → Bool
has_text [] key = false
has_text (candidate ∷ allowed) key = text_eq key candidate || has_text allowed key

-- The test of `unsigned_value` on the text, and its range; an exception of `std::stoull` is that of a
-- value of 2^64 or more.
unfoldable pub parse_unsigned : Text → Text → Outcome ℕ
parse_unsigned text place =
    let number = decimal_from 0 text in
    if is_empty text || not (all_digits text)
    then err (config_error (place ++ codes ": expected an unsigned integer"))
    else if not (ltb number u64_mod) || not (ltb number u32_mod)
    then err (config_error (place ++ codes ": integer out of range"))
    else ok number

module _ (y : Yaml) where
  open y use {Node, get, is_map, entries, as_string, as_bool, empty_map}

  unfoldable pub section : Node → Text → Text → Outcome Node
  section parent key path = elim (get parent key) [
    | none ↦ ok empty_map
    | some node ↦
        if is_map node
        then ok node
        else err (
            config_error
              ((if is_empty path then key else dot path key) ++ codes ": expected a mapping"))
  ]

  -- The conversion of a key throws yaml-cpp's exception.
  unfoldable pub key_of : Node → Outcome Text
  key_of key = elim (as_string key) [ ok text ↦ ok text | err what ↦ err (yaml_error what) ]

  unfoldable pub check_entries : List (Node × Node) → List Text → Text → Outcome (Unit {0})
  unfolding key_of
  check_entries [] allowed path = ok tt
  check_entries ((key, value) ∷ rest) allowed path =
      let others = check_entries rest allowed path in
      key_of key >>= λ text.
      guard (has_text allowed text) (config_error (dot path text ++ codes ": unknown setting"))
      >> others

  unfoldable pub check_keys : Node → List Text → Text → Outcome (Unit {0})
  check_keys node = check_entries (entries node)

  -- `value<T>`, with the conversion to T.
  unfoldable pub value : {A : Type 0} → (Node → Result Text A) → Node → Text → A → Text → Outcome A
  value conv parent key fallback path = elim (get parent key) [
    | none ↦ ok fallback
    | some node ↦ elim (conv node) [
      | ok a ↦ ok a
      | err what ↦ err (config_error (dot path key ++ codes ": " ++ what))
    ]
  ]

  unfoldable pub unsigned_value : Node → Text → ℕ → Text → Outcome ℕ
  unsigned_value parent key fallback path =
      value as_string parent key (to_string fallback) path >>= λ text.
      parse_unsigned text (dot path key)

  -- The checks of `ConfigFile::load` on the root; `is_map` is false for a file that is no mapping.
  unfoldable pub check_root : Node → Outcome Node
  check_root root =
      guard (is_map root) (config_error (codes "expected a YAML mapping"))
      >> (unsigned_value root (codes "version") 1 (codes "config") >>= λ version.
          guard (version == 1) (config_error (codes "config.version: only version 1 is supported"))
          >> ok root)

  abbrev what : ConfigException → Text
  what (config_error text) = text
  what (yaml_error text) = text

  -- `ConfigFile::load` of what the file system and the parser make of a path: every exception becomes
  -- a `ConfigError` with the path.
  unfoldable pub load : Text → Result Text Node → Outcome Node
  load path (err text) = err (config_error (path ++ codes ": " ++ text))
  load path (ok root) = elim (check_root root) [
    | ok r ↦ ok r
    | err e ↦ err (config_error (path ++ codes ": " ++ what e))
  ]
