-- ===== src/Config/Reference/Expanded.antt =====
-- The loops over the tokens for the working directory in config/config_file.hpp of
-- core/advrf_middleware_core, against a substitution from left to right.
use ecat_middleware_advr.Prelude.{
  ℕ, zero, suc, ◌+◌, ◌-◌, ◌<◌, ◌≤◌, ◌≡◌, refl, sym, ap, subst, ◌∙◌, true, false, inl, inr,
  Bool-cases, [], ◌∷◌, ◌++◌, append_assoc, Option, none, some, Option-cases, arith, if◌then◌else◌,
  Text, length, length-append, take, drop,
}
use ecat_middleware_advr.Config.Reference.{
  is_prefix, later, find, replace, replace_from, replace_all,
}

-- The text with every occurrence of a token replaced from left to right. The first `skip` characters are
-- the rest of an occurrence.
pub substituted : Text → Text → ℕ → Text → Text
substituted token directory skip [] = []
substituted token directory (suc skip) (c ∷ s) = substituted token directory skip s
substituted token directory zero (c ∷ s) =
    let replaced = directory ++ substituted token directory (length token - 1) s in
    let kept = c ∷ substituted token directory zero s in
    if is_prefix token (c ∷ s) then replaced else kept

absurd-later : {i : ℕ} {o : Option ℕ} {A : Type 0} → o ≡ some i → later o ≡ none → A
absurd-later {o = none} e h = cc
absurd-later {o = some j} e h = cc

index_of : Option ℕ → ℕ
index_of none = 0
index_of (some i) = i

nothing_later : {at : ℕ} {o : Option ℕ} {A : Type 0} → o ≡ none → later o ≡ some at → A
nothing_later {o = none} e h = cc
nothing_later {o = some j} e h = cc

later-some : {i at : ℕ} {o : Option ℕ} → o ≡ some i → later o ≡ some at → at ≡ suc i
unfolding index_of
later-some {o = none} e h = cc
later-some {o = some j} e h = sym (ap index_of h) ∙ ap suc (ap index_of e)

suc_sub_one : (n : ℕ) → suc n - 1 ≡ n
suc_sub_one n = omega arith

zero_add : (n : ℕ) → 0 + n ≡ n
zero_add n = omega arith

suc_add : (m n : ℕ) → suc m + n ≡ suc (m + n)
suc_add m n = omega arith

add_assoc : (a b c : ℕ) → a + b + c ≡ a + (b + c)
add_assoc a b c = omega arith

drop-cons : (n c : ℕ) (s : Text) → 0 < n → drop n (c ∷ s) ≡ drop (n - 1) s
drop-cons zero c s h = elim h [ ]
drop-cons (suc n) c s h = rw (suc_sub_one n) refl

drop-length : (before s : Text) → drop (length before) (before ++ s) ≡ s
drop-length [] s = refl
drop-length (c ∷ before) s = drop-length before s

take-length_plus :
    (before s : Text) (n : ℕ) → take (length before + n) (before ++ s) ≡ before ++ take n s
take-length_plus [] s n = rw (zero_add n) refl
take-length_plus (c ∷ before) s n =
    rw (suc_add (length before) n) (ap (λ l. c ∷ l) (take-length_plus before s n))

drop-length_plus : (before s : Text) (n : ℕ) → drop (length before + n) (before ++ s) ≡ drop n s
drop-length_plus [] s n = rw (zero_add n) refl
drop-length_plus (c ∷ before) s n = rw (suc_add (length before) n) (drop-length_plus before s n)

length-drop_le : (n : ℕ) (s : Text) → length (drop n s) ≤ length s - n
length-drop_le zero s = omega arith
length-drop_le (suc n) [] = omega arith
length-drop_le (suc n) (c ∷ s) = omega (arith, length-drop_le n s)

length-take_le : (n : ℕ) (s : Text) → n ≤ length s → length (take n s) ≡ n
length-take_le zero s h = refl
length-take_le (suc n) [] h = absurd (omega arith)
length-take_le (suc n) (c ∷ s) h = omega (arith, length-take_le n s (omega arith))

module _ (token directory : Text) where
  substituted-skip :
      (skip : ℕ) (s : Text)
      → substituted token directory skip s ≡ substituted token directory 0 (drop skip s)
  unfolding substituted
  substituted-skip zero s = refl
  substituted-skip (suc skip) [] = refl
  substituted-skip (suc skip) (c ∷ s) = substituted-skip skip s

  find-cons :
      (c : ℕ) (s : Text) (r : Option ℕ)
      → is_prefix token (c ∷ s) ≡ false
      → find token (c ∷ s) ≡ r
      → later (find token s) ≡ r
  unfolding find
  find-cons c s r e h = subst (λ b. (if b then some 0 else later (find token s)) ≡ r) e h

  found_first :
      (c : ℕ) (s : Text) (at : ℕ)
      → is_prefix token (c ∷ s) ≡ true
      → find token (c ∷ s) ≡ some at
      → at ≡ 0
  unfolding find index_of
  found_first c s at e h =
      sym (ap index_of (subst (λ b. (if b then some 0 else later (find token s)) ≡ some at) e h))

  substituted-kept :
      (c : ℕ) (s : Text)
      → is_prefix token (c ∷ s) ≡ false
      → substituted token directory 0 (c ∷ s) ≡ c ∷ substituted token directory 0 s
  unfolding substituted
  substituted-kept c s e = rw e refl

  substituted-nothing : (s : Text) → find token s ≡ none → substituted token directory 0 s ≡ s
  unfolding substituted find
  substituted-nothing [] h = refl
  substituted-nothing (c ∷ s) h = elim (Bool-cases (is_prefix token (c ∷ s))) [
    | inl e ↦ cc
    | inr e ↦ elim (Option-cases (find token s)) [
      | inl nothing ↦ substituted-kept c s e ∙ ap (λ l. c ∷ l) (substituted-nothing s nothing)
      | inr (i, found) ↦ absurd-later found (find-cons c s none e h)
    ]
  ]

  substituted-found :
      (s : Text) (at : ℕ)
      → 0 < length token
      → find token s ≡ some at
      → (substituted token directory 0 s
          ≡ take at s ++ (directory ++ substituted token directory 0 (drop (at + length token) s)))
        × (at < length s)
  unfolding substituted find
  substituted-found [] at p h = cc
  substituted-found (c ∷ s) at p h = elim (Bool-cases (is_prefix token (c ∷ s))) [
    | inl e ↦
        let first : at ≡ 0 = found_first c s at e h in
        (
          rw (e, first, zero_add (length token), drop-cons (length token) c s p)
              (ap (λ l. directory ++ l) (substituted-skip (length token - 1) s)),
          rw first (omega arith),
        )
    | inr e ↦ elim (Option-cases (find token s)) [
      | inl nothing ↦ nothing_later nothing (find-cons c s (some at) e h)
      | inr (i, found) ↦
          let (is, within) = substituted-found s i p found in
          let next : at ≡ suc i = later-some found (find-cons c s (some at) e h) in
          (
            substituted-kept c s e ∙ rw (next, suc_add i (length token)) (ap (λ l. c ∷ l) is),
            rw next (omega arith),
          )
    ]
  ]

  replaced :
      (before s : Text) (at : ℕ)
      → replace (before ++ s) (length before + at) (length token) directory
        ≡ ((before ++ take at s) ++ directory) ++ drop (at + length token) s
  unfolding replace
  replaced before s at =
      rw
        (
          add_assoc (length before) at (length token),
          take-length_plus before s at,
          drop-length_plus before s (at + length token),
        )
        (sym (append_assoc (before ++ take at s) directory (drop (at + length token) s)))

  length-replaced :
      (before s : Text) (at : ℕ)
      → at < length s
      → length before + at + length directory ≡ length ((before ++ take at s) ++ directory)
  length-replaced before s at h = omega (
    arith,
    length-append (before ++ take at s) directory,
    length-append before (take at s),
    length-take_le at s (omega arith),
  )

  replace_from-substituted :
      (fuel : ℕ) (before s : Text)
      → 0 < length token
      → length s < fuel
      → replace_from fuel token directory (before ++ s) (length before)
        ≡ some (before ++ substituted token directory 0 s)
  unfolding replace_from
  replace_from-substituted zero before s p h = elim h [ ]
  replace_from-substituted (suc fuel) before s p h = elim (Option-cases (find token s)) [
    | inl nothing ↦
        rw (replace_from, drop-length before s, nothing, substituted-nothing s nothing) refl
    | inr (at, found) ↦
        let (is, within) = substituted-found s at p found in
        rw
          (
            replace_from,
            drop-length before s,
            found,
            replaced before s at,
            length-replaced before s at within,
          )
          (replace_from-substituted fuel ((before ++ take at s) ++ directory)
              (drop (at + length token) s) p (omega (arith, length-drop_le (at + length token) s))
            ∙ ap some (
                append_assoc (before ++ take at s) directory _
                ∙ append_assoc before (take at s) _
                ∙ ap (λ l. before ++ l) (sym is)))
  ]

-- With a token that is not empty, the loop ends, within one round for each character and one more, and its
-- result is the text with every occurrence of the token replaced from left to right; what was put in is
-- not searched again.
pub replace_all-substituted :
    (token directory folder : Text)
    → 0 < length token
    → (replace_from (suc (length folder)) token directory folder 0
        ≡ some (substituted token directory 0 folder))
      × (replace_all token directory folder ≡ substituted token directory 0 folder)
unfolding replace_all
replace_all-substituted token directory folder p =
    let ends : replace_from (suc (length folder)) token directory folder 0
        ≡ some (substituted token directory 0 folder) =
      replace_from-substituted token directory (suc (length folder)) [] folder p (omega arith) in
    (ends, rw (replace_all, ends) refl)
