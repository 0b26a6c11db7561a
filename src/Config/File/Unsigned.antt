-- ===== src/Config/File/Unsigned.antt =====
-- Unsigned settings of config/config_file.hpp: what is accepted, and that printing and reading back
-- gives the same number.
use ecat_middleware_advr.Prelude.{
  ℕ, ◌<◌, ◌≡◌, refl, ◌↔◌, true, false, none, arith, Text, is_empty, ok, all_digits, decimal_from,
  to_string, u32_mod, decimal_from-to_string, all_digits-to_string, is_empty-to_string, >>=-eq-ok,
}
use ecat_middleware_advr.Config.Yaml.{Yaml}
use ecat_middleware_advr.Config.File.{parse_unsigned, value, unsigned_value, dot}

-- A text is read as `n` exactly if it is a text of digits only, at least one, with the value `n`, and
-- `n` is a `uint32_t`.
pub parse_unsigned_iff :
    (text place : Text) (n : ℕ)
    → (parse_unsigned text place ≡ ok n) ↔ (
        (is_empty text ≡ false)
        × (all_digits text ≡ true)
        × (decimal_from 0 text ≡ n)
        × (n < u32_mod))
unfolding parse_unsigned
parse_unsigned_iff text place n = (λ h. ground arith, λ h. ground arith)

-- Every `uint32_t` is read back from its decimal text.
pub parse_unsigned-to_string :
    (n : ℕ) (place : Text) → n < u32_mod → parse_unsigned (to_string n) place ≡ ok n
parse_unsigned-to_string n place h =
    (parse_unsigned_iff (to_string n) place n).1
      (is_empty-to_string n, all_digits-to_string n, decimal_from-to_string n, h)

module _ (y : Yaml) where
  open y use {Node, get, as_string}

  -- A setting that is not there has its default.
  pub unsigned_value_missing :
      (parent : Node) (key : Text) (fallback : ℕ) (path : Text)
      → get parent key ≡ none
      → fallback < u32_mod
      → unsigned_value y parent key fallback path ≡ ok fallback
  unfolding unsigned_value value
  unsigned_value_missing parent key fallback path missing h =
      rw (missing, unsigned_value, value) (parse_unsigned-to_string fallback (dot path key) h)

  -- Whatever the file says, a setting that is read is a `uint32_t`.
  pub unsigned_value-lt :
      (parent : Node) (key : Text) (fallback : ℕ) (path : Text) {n : ℕ}
      → unsigned_value y parent key fallback path ≡ ok n
      → n < u32_mod
  unfolding unsigned_value
  unsigned_value-lt parent key fallback path {n} h =
      let (text, read, parsed) =
        >>=-eq-ok (value y as_string parent key (to_string fallback) path)
          (λ text. parse_unsigned text (dot path key)) h in
      ((parse_unsigned_iff text (dot path key) n).0 parsed).3

  -- A text that is put under a key is read like the text of a file.
  pub unsigned_value-single :
      (key text : Text) (fallback : ℕ) (path : Text)
      → unsigned_value y (y.single key text) key fallback path ≡ parse_unsigned text (dot path key)
  unfolding unsigned_value value
  unsigned_value-single key text fallback path =
      let (n, found, as_text) = y.get-single key text in
      rw (found, unsigned_value, value) (rw (as_text, unsigned_value, value) refl)
