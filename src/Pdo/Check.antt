-- ===== src/Pdo/Check.antt =====
-- The type check of utils/pdo_utils.hpp: `warn_type_mismatch` with its static set of the pairs that
-- were warned about, and `check_expected_type`.
use ecat_middleware_advr.Prelude.{
  ◌≡◌, refl, ◌↔◌, Bool, true, false, List, [], ◌∷◌, arith, if◌then◌else◌, ℕ_discrete, ite, if_pos,
  inl, inr, Bool-cases,
}
use ecat_middleware_advr.Pdo.{PdoType, PdoExpected, PdoMessage, is_hub_type, is_expected_type}

pub PdoType-discrete : Discrete PdoType
PdoType-discrete = hlevel ℕ_discrete

PdoExpected-discrete : Discrete PdoExpected
PdoExpected-discrete = hlevel

-- `warned.count({got, expected})`.
pub is_warned : List (PdoType × PdoExpected) → PdoType → PdoExpected → Bool
is_warned [] got expected = false
is_warned ((t, e) ∷ rest) got expected =
    let older = is_warned rest got expected in
    ite (PdoType-discrete t got) (ite (PdoExpected-discrete e expected) true older) older

-- The new set of pairs, and whether the warning is printed.
unfoldable pub warn_type_mismatch :
    List (PdoType × PdoExpected) → PdoType → PdoExpected → List (PdoType × PdoExpected) × Bool
warn_type_mismatch warned got expected =
    if is_warned warned got expected then (warned, false) else ((got, expected) ∷ warned, true)

-- The result of the check, the new set, and whether the warning is printed.
unfoldable pub check_expected_type :
    {Pdo : Type 0} ⦃m : PdoMessage Pdo⦄
    → List (PdoType × PdoExpected)
    → Pdo
    → PdoExpected
    → Bool × (List (PdoType × PdoExpected) × Bool)
unfolding warn_type_mismatch
check_expected_type ⦃m⦄ warned pdo expected =
    let t = m.pdo_type pdo in
    if is_hub_type t
    then (false, (warned, false))
    else if is_expected_type t expected
    then (true, (warned, false))
    else (false, warn_type_mismatch warned t expected)

pub is_warned_head :
    (w : List (PdoType × PdoExpected)) (t : PdoType) (e : PdoExpected)
    → is_warned ((t, e) ∷ w) t e ≡ true
unfolding is_warned
is_warned_head w t e = elim (PdoType-discrete t t) [
  | yes p ↦
      rw (if_pos _ p)
        (elim (PdoExpected-discrete e e) [ yes q ↦ rw (if_pos _ q) | no q ↦ absurd (q refl) ])
  | no p ↦ absurd (p refl)
]

pub is_warned_tail :
    (w : List (PdoType × PdoExpected)) (s t : PdoType) (d e : PdoExpected)
    → is_warned w t e ≡ true
    → is_warned ((s, d) ∷ w) t e ≡ true
unfolding is_warned
is_warned_tail w s t d e h = ground arith

-- A pair that is in one set and a pair that is not are two.
pub is_warned_other :
    (w v : List (PdoType × PdoExpected)) (s t : PdoType) (d e : PdoExpected)
    → is_warned w t e ≡ true
    → is_warned w s d ≡ false
    → is_warned v t e ≡ false
    → is_warned ((s, d) ∷ v) t e ≡ false
unfolding is_warned
is_warned_other w v s t d e h k l = ground arith

-- A PDO passes for one device category at most, and a hub's for none.
pub is_expected_type_unique :
    (t : PdoType) (d e : PdoExpected)
    → is_expected_type t d ≡ true
    → is_expected_type t e ≡ true
    → (d ≡ e) × (is_hub_type t ≡ false)
unfolding is_expected_type is_hub_type
is_expected_type_unique t d e h k = ground arith

-- No pair stands twice in a list.
abbrev pub NoRepeat : List (PdoType × PdoExpected) → Type 0
NoRepeat [] = Unit
NoRepeat ((t, e) ∷ ps) = (is_warned ps t e ≡ false) × NoRepeat ps

module _ {Pdo : Type 0} ⦃m : PdoMessage Pdo⦄ where
  -- The pairs of the warnings that a series of checks prints.
  pub printed :
      List (PdoType × PdoExpected) → List (Pdo × PdoExpected) → List (PdoType × PdoExpected)
  printed warned [] = []
  printed warned ((pdo, expected) ∷ rest) =
      let (passed, (warned', prints)) = check_expected_type warned pdo expected in
      let later = printed warned' rest in
      if prints then (m.pdo_type pdo, expected) ∷ later else later

  check-grows :
      (w : List (PdoType × PdoExpected)) (pdo : Pdo) (x : PdoExpected) (t : PdoType)
      (e : PdoExpected)
      → is_warned w t e ≡ true
      → is_warned (check_expected_type w pdo x).1.0 t e ≡ true
  unfolding check_expected_type
  check-grows w pdo x t e h = ground (arith, is_warned_tail w (m.pdo_type pdo) t x e)

  check-prints :
      (w : List (PdoType × PdoExpected)) (pdo : Pdo) (x : PdoExpected)
      → (check_expected_type w pdo x).1.1 ≡ true
      → (is_warned w (m.pdo_type pdo) x ≡ false)
        × (is_warned (check_expected_type w pdo x).1.0 (m.pdo_type pdo) x ≡ true)
  unfolding check_expected_type
  check-prints w pdo x h = ground (arith, is_warned_head w (m.pdo_type pdo) x)

  printed-fresh :
      (w : List (PdoType × PdoExpected)) (cs : List (Pdo × PdoExpected)) (t : PdoType)
      (e : PdoExpected)
      → is_warned w t e ≡ true
      → is_warned (printed w cs) t e ≡ false
  unfolding printed
  printed-fresh w [] t e h = unfold is_warned in refl
  printed-fresh w ((pdo, x) ∷ cs) t e h = ground (
    arith,
    check-prints w pdo x,
    is_warned_other w (printed (check_expected_type w pdo x).1.0 cs) (m.pdo_type pdo) t x e,
    printed-fresh (check_expected_type w pdo x).1.0 cs t e,
    check-grows w pdo x t e,
  )

  -- Whatever PDOs are checked, each pair of a received type and an expected category is warned about
  -- once at most, and a pair that was warned about before is not warned about again.
  pub printed-NoRepeat :
      (w : List (PdoType × PdoExpected)) (cs : List (Pdo × PdoExpected))
      → NoRepeat (printed w cs)
        × ((t : PdoType) (e : PdoExpected)
            → is_warned w t e ≡ true
            → is_warned (printed w cs) t e ≡ false)
  unfolding printed
  printed-NoRepeat w [] = (tt, printed-fresh w [])
  printed-NoRepeat w ((pdo, x) ∷ cs) =
      let w' = (check_expected_type w pdo x).1.0 in
      let later : NoRepeat (printed w' cs) = (printed-NoRepeat w' cs).0 in
      let step : NoRepeat (printed w ((pdo, x) ∷ cs)) =
        elim (Bool-cases (check_expected_type w pdo x).1.1) [
          | inl e ↦ rw e (printed-fresh w' cs _ x (check-prints w pdo x e).1, later)
          | inr e ↦ rw e later
        ] in
      (step, printed-fresh w ((pdo, x) ∷ cs))

  -- A PDO is accepted exactly if its type is one of the expected category's and no hub's.
  pub check_expected_type-accepts :
      (w : List (PdoType × PdoExpected)) (pdo : Pdo) (x : PdoExpected)
      → ((check_expected_type w pdo x).0 ≡ true) ↔ (is_expected_type (m.pdo_type pdo) x ≡ true)
  unfolding check_expected_type
  check_expected_type-accepts w pdo x = ground (arith, is_expected_type_unique (m.pdo_type pdo) x x)
