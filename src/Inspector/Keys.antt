-- ===== src/Inspector/Keys.antt =====
-- Maps by name, as bridge_inspector.hpp of tools/shm_tools uses them.
use ecat_middleware_advr.Prelude.{
  ◌≡◌, refl, sym, subst, ◌∙◌, true, false, inl, inr, Bool-cases, List, [], ◌∷◌, none, some,
  if◌then◌else◌, Text, text_eq, text_eq_refl, text_eq→eq, arith,
}
use ecat_middleware_advr.Inspector.{find_key, put_key}

true_or_false : true ≡ false → ⊥
true_or_false h = cc

text_eq-other : (a b : Text) → text_eq a b ≡ false → text_eq b a ≡ false
text_eq-other a b h = elim (Bool-cases (text_eq b a)) [
  | inl e ↦
      let eq : b ≡ a = text_eq→eq b a e in
      absurd (true_or_false (sym (text_eq_refl a) ∙ subst (λ c. text_eq a c ≡ false) eq h))
  | inr e ↦ e
]

-- A name that is equal to one of two different names is not the other.
text_eq-apart : (a b c : Text) → text_eq a b ≡ false → text_eq a c ≡ true → text_eq b c ≡ false
text_eq-apart a b c h e = subst (λ d. text_eq b d ≡ false) (text_eq→eq a c e) (text_eq-other a b h)

pub find_key-put_key :
    {A : Type 0} (name : Text) (a : A) (entries : List (Text × A)) (k : Text)
    → find_key (put_key name a entries) k ≡ (if text_eq name k then some a else find_key entries k)
unfolding find_key put_key
find_key-put_key name a [] k = refl
find_key-put_key name a ((n, old) ∷ entries) k = elim (Bool-cases (text_eq n name)) [
  | inl same ↦ rw (same, text_eq→eq n name same) (ground arith)
  | inr other ↦
      rw (other, find_key-put_key name a entries k) (ground (arith, text_eq-apart n name k other))
]

-- Each name is there once.
abbrev pub KeysOnce : {A : Type 0} → List (Text × A) → Type 0
KeysOnce [] = Unit
KeysOnce ((n, a) ∷ entries) = (find_key entries n ≡ none) × KeysOnce entries

pub put_key-KeysOnce :
    {A : Type 0} (name : Text) (a : A) (entries : List (Text × A))
    → KeysOnce entries
    → KeysOnce (put_key name a entries)
unfolding put_key
put_key-KeysOnce name a [] h = (unfold find_key in refl, tt)
put_key-KeysOnce name a ((n, old) ∷ entries) h = elim (Bool-cases (text_eq n name)) [
  | inl same ↦ rw same h
  | inr other ↦ rw other (
    find_key-put_key name a entries n ∙ rw (text_eq-other n name other) h.0,
    put_key-KeysOnce name a entries h.1,
  )
]
