-- ===== src/Pdo/Ids.antt =====
-- `get_ecat_id` of utils/pdo_utils.hpp and `resolve_name` of utils/name_resolver.hpp, in
-- core/advrf_middleware_core: the device names that carry an EtherCAT ID.
use ecat_middleware_advr.Prelude.{
  ℕ, ◌≤◌, ◌≡◌, refl, ◌⊎◌, inl, inr, true, List, [], ◌∷◌, ◌++◌, Option, none, some, arith,
  if◌then◌else◌, ◌==◌, ℤ, pos, negsuc, Text, codes, stoi, to_string, is_empty, all_digits,
  stoi-digits, decimal_from-to_string, all_digits-to_string, is_empty-to_string, Option-cases, ◌∙◌,
  sym,
}

-- `substr(rfind('_') + 1)`: the text behind the last underscore, if there is one.
unfoldable pub after_underscore : Text → Option Text
after_underscore [] = none
after_underscore (c ∷ s) = elim (after_underscore s) [
  | some t ↦ some t
  | none ↦ if c == b'_' then some s else none
]

-- The caught exception of `std::stoi` is -1.
or_minus_one : Option ℤ → ℤ
or_minus_one none = negsuc 0
or_minus_one (some z) = z

-- -1 where there is no underscore, or nothing behind the last one.
unfoldable pub get_ecat_id : Text → ℤ
unfolding or_minus_one
get_ecat_id component_name = elim (after_underscore component_name) [
  | none ↦ negsuc 0
  | some t ↦ if is_empty t then negsuc 0 else or_minus_one (stoi t)
]

-- `names.find(id)`.
unfoldable pub find_name : List (ℕ × Text) → ℕ → Option Text
find_name [] id = none
find_name ((j, name) ∷ names) id = if j == id then some name else find_name names id

unfoldable pub resolve_name : ℕ → List (ℕ × Text) → Text
resolve_name id names = elim (find_name names id) [
  | some name ↦ name
  | none ↦ codes "ecat_" ++ to_string id
]

after_underscore-digits : (s : Text) → all_digits s ≡ true → after_underscore s ≡ none
unfolding after_underscore all_digits
after_underscore-digits [] h = refl
after_underscore-digits (c ∷ s) h = ground (arith, after_underscore-digits s)

after_underscore-append :
    (p s : Text) → all_digits s ≡ true → after_underscore (p ++ b'_' ∷ s) ≡ some s
unfolding after_underscore
after_underscore-append [] s h = ground (arith, after_underscore-digits s h)
after_underscore-append (c ∷ p) s h = ground (arith, after_underscore-append p s h)

-- A name that ends in an underscore and the decimal digits of an ID below 2^31 has that ID, whatever
-- stands before the underscore.
pub get_ecat_id-to_string :
    (p : Text) (id : ℕ) → id ≤ 2147483647 → get_ecat_id (p ++ b'_' ∷ to_string id) ≡ pos id
unfolding get_ecat_id
get_ecat_id-to_string p id h = ground (
  arith,
  after_underscore-append p (to_string id) (all_digits-to_string id),
  is_empty-to_string id,
  stoi-digits (to_string id) (is_empty-to_string id) (all_digits-to_string id),
  decimal_from-to_string id,
)

-- The name of a device that no configuration names leads back to its ID, and that of a named device
-- is the configured one.
pub resolve_name-get_ecat_id :
    (id : ℕ) (names : List (ℕ × Text))
    → id ≤ 2147483647
    → ((find_name names id ≡ none) × (get_ecat_id (resolve_name id names) ≡ pos id))
      ⊎ (find_name names id ≡ some (resolve_name id names))
unfolding resolve_name
resolve_name-get_ecat_id id names h = elim (Option-cases (find_name names id)) [
  | inl e ↦ inl (e, rw (e, resolve_name) (get_ecat_id-to_string (codes "ecat") id h))
  | inr (n, e) ↦ inr (e ∙ sym (rw (e, resolve_name) refl))
]
