-- ===== src/Config/Reference.antt =====
-- The loops of config/config_file.hpp in core/advrf_middleware_core that put a directory in the place of
-- the tokens for it, with `std::string::find` and `std::string::replace`.
pub mod Expanded
use ecat_middleware_advr.Prelude.{
  ℕ, zero, suc, ◌+◌, Bool, true, false, ◌&&◌, [], ◌∷◌, ◌++◌, Option, none, some, if◌then◌else◌,
  ◌==◌, Text, codes, length, take, drop,
}

-- Whether a text begins with another.
unfoldable pub is_prefix : Text → Text → Bool
is_prefix [] s = true
is_prefix (t ∷ token) [] = false
is_prefix (t ∷ token) (c ∷ s) = t == c && is_prefix token s

abbrev pub later : Option ℕ → Option ℕ
later none = none
later (some i) = some (suc i)

-- `s.find(token)`, for a token that is not empty; `none` is `npos`.
unfoldable pub find : Text → Text → Option ℕ
unfolding is_prefix
find token [] = none
find token (c ∷ s) =
    let after = find token s in if is_prefix token (c ∷ s) then some 0 else later after

-- `s.replace(at, count, text)`.
unfoldable pub replace : Text → ℕ → ℕ → Text → Text
replace s at count text = take at s ++ (text ++ drop (at + count) s)

-- `while ((offset = folder.find(token, offset)) != npos) { folder.replace(offset, size, directory);
-- offset += directory.size(); }`, on fuel.
unfoldable pub replace_from : ℕ → Text → Text → Text → ℕ → Option Text
unfolding find replace
replace_from zero token directory folder offset = none
replace_from (suc fuel) token directory folder offset = elim (find token (drop offset folder)) [
  | none ↦ some folder
  | some at ↦
      replace_from fuel token directory (replace folder (offset + at) (length token) directory)
        (offset + at + length directory)
]

-- The loop with fuel that is enough.
unfoldable pub replace_all : Text → Text → Text → Text
unfolding replace_from
replace_all token directory folder =
    elim (replace_from (suc (length folder)) token directory folder 0) [
      | some text ↦ text
      | none ↦ folder
    ]

-- `for (token : {"${PWD}", "$PWD"})`.
unfoldable pub expand : Text → Text → Text
unfolding replace_all
expand directory folder =
    replace_all (codes "$PWD") directory (replace_all (codes "${PWD}") directory folder)
