-- ===== src/Publishers/Masks.antt =====
-- What the bitset operations of adapters/adapter_publishers.hpp test, and the mask of the configured
-- IDs.
use ecat_middleware_advr.Prelude.{
  ℕ, zero, suc, ◌<◌, ◌≡◌, refl, ap, sym, ◌∙◌, ==_iff, inl, inr, true, ◌&&◌, ◌||◌, List, [], ◌∷◌,
  arith, if◌then◌else◌, ltb, leb, ◌==◌, Bool-cases, contains,
}
use ecat_middleware_advr.Publishers.{IdMask, any_below, same_below, set_id, allow_ids, max_ecat_ids}

-- A bit that is set is found.
pub any_below-true : (n : ℕ) (m : IdMask) (id : ℕ) → id < n → m id ≡ true → any_below n m ≡ true
unfolding any_below
any_below-true zero m id h e = elim h [ ]
any_below-true (suc n) m id h e = elim (Bool-cases (n == id)) [
  | inl p ↦ rw (ap m ((==_iff n id).0 p) ∙ e) refl
  | inr p ↦ ground (arith, any_below-true n m id (ground arith) e)
]

-- And a bit is set if one is found.
pub any_below-found :
    (n : ℕ) (m : IdMask) → any_below n m ≡ true → (id : ℕ) × (id < n) × (m id ≡ true)
unfolding any_below
any_below-found zero m h = cc
any_below-found (suc n) m h = elim (Bool-cases (m n)) [
  | inl p ↦ (n, omega arith, p)
  | inr p ↦ let (id, lt, e) = any_below-found n m (rw p at h) in (id, omega arith, e)
]

pub same_below-eq : (n : ℕ) (m k : IdMask) (id : ℕ) → id < n → same_below n m k ≡ true → m id ≡ k id
unfolding same_below
same_below-eq zero m k id lt h = elim lt [ ]
same_below-eq (suc n) m k id lt h = elim (Bool-cases (n == id)) [
  | inl p ↦
      let e : n ≡ id = (==_iff n id).0 p in
      let same : m n ≡ k n = ground arith in ap m (sym e) ∙ same ∙ ap k e
  | inr p ↦ same_below-eq n m k id (ground arith) (ground arith)
]

pub eq-same_below :
    (n : ℕ) (m k : IdMask) → ((id : ℕ) → id < n → m id ≡ k id) → same_below n m k ≡ true
unfolding same_below
eq-same_below zero m k h = refl
eq-same_below (suc n) m k h =
    let rest = eq-same_below n m k (λ id lt. h id (omega arith)) in
    ground (arith, h n (omega arith), rest)

-- What one round of the loop of `register_publisher` makes of a bit.
allow_one :
    (m : IdMask) (j id : ℕ)
    → (if leb max_ecat_ids j then m else if m j then m else set_id m j) id
      ≡ (m id || (ltb id max_ecat_ids && j == id))
allow_one m j id = elim (Bool-cases (j == id)) [
  | inl p ↦ let e : j ≡ id = (==_iff j id).0 p in let same : m j ≡ m id = ap m e in ground arith
  | inr p ↦ ground arith
]

-- The mask after `register_publisher`: the IDs in the list that are in range.
pub allow_ids_lem :
    (ids : List ℕ) (m : IdMask) (id : ℕ)
    → allow_ids m ids id ≡ (m id || (ltb id max_ecat_ids && contains ids id))
unfolding allow_ids contains
allow_ids_lem [] m id = ground arith
allow_ids_lem (j ∷ ids) m id =
    let m' : IdMask = if leb max_ecat_ids j then m else if m j then m else set_id m j in
    let one : m' id ≡ (m id || (ltb id max_ecat_ids && j == id)) = allow_one m j id in
    allow_ids_lem ids m' id ∙ ground (arith, one)
