-- ===== src/Discover/Pigeonhole.antt =====
-- Lists of distinct numbers: one that is contained in a list no longer than itself contains that list.
use ecat_middleware_advr.Prelude.{
  ℕ, suc, ◌≡◌, ◌≤◌, refl, ap, ◌∙◌, true, false, inl, inr, if◌then◌else◌, List, [], ◌∷◌, contains,
  Distinct, length, ◌==◌, ==_iff, Bool-cases, arith,
}

-- The list without the first `a`.
remove_one : List ℕ → ℕ → List ℕ
remove_one [] a = []
remove_one (x ∷ xs) a = if x == a then xs else x ∷ remove_one xs a

length-remove_one :
    (xs : List ℕ) (a : ℕ) → contains xs a ≡ true → length xs ≡ suc (length (remove_one xs a))
unfolding remove_one contains
length-remove_one [] a h = cc
length-remove_one (x ∷ xs) a h = elim (Bool-cases (x == a)) [
  | inl e ↦ rw e refl
  | inr e ↦ rw e (ap suc (length-remove_one xs a (ground arith)))
]

contains-remove_one :
    (xs : List ℕ) (a b : ℕ) → (a == b) ≡ false → contains (remove_one xs a) b ≡ contains xs b
unfolding remove_one contains
contains-remove_one [] a b h = refl
contains-remove_one (x ∷ xs) a b h = ground (arith, contains-remove_one xs a b h)

differs :
    (x : ℕ) (xs : List ℕ)
    → contains xs x ≡ false
    → (b : ℕ) → contains xs b ≡ true
    → (x == b) ≡ false
differs x xs fresh b k = elim (Bool-cases (x == b)) [
  | inl e ↦ absurd (cc (fresh, k, (==_iff x b).0 e))
  | inr e ↦ e
]

pub contains-all :
    (xs ys : List ℕ)
    → Distinct xs
    → ((a : ℕ) → contains xs a ≡ true → contains ys a ≡ true)
    → length ys ≤ length xs
    → (a : ℕ) → contains ys a ≡ true
    → contains xs a ≡ true
unfolding contains
contains-all [] [] d sub le a h = h
contains-all [] (y ∷ ys) d sub le a h = absurd (omega arith)
contains-all (x ∷ xs) ys d sub le a h = elim (Bool-cases (x == a)) [
  | inl e ↦ ground arith
  | inr e ↦
      let at : contains ys x ≡ true = sub x (ground arith) in
      let rest =
        contains-all xs (remove_one ys x) d.1
          (λ b k. contains-remove_one ys x b (differs x xs d.0 b k) ∙ sub b (ground arith))
          (omega (arith, length-remove_one ys x at)) a in
      ground (arith, rest (contains-remove_one ys x a e ∙ h))
]

pub length-contained :
    (xs ys : List ℕ)
    → Distinct xs
    → ((a : ℕ) → contains xs a ≡ true → contains ys a ≡ true)
    → length xs ≤ length ys
unfolding contains
length-contained [] ys d sub = omega arith
length-contained (x ∷ xs) ys d sub =
    let at : contains ys x ≡ true = sub x (ground arith) in
    let rest =
      length-contained xs (remove_one ys x) d.1
        (λ b k. contains-remove_one ys x b (differs x xs d.0 b k) ∙ sub b (ground arith)) in
    omega (arith, rest, length-remove_one ys x at)
