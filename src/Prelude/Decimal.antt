-- ===== src/Prelude/Decimal.antt =====
-- Decimal texts: `std::to_string` of an unsigned value, the digit loop that `std::stoi` and
-- `std::stoull` run, and `std::stoi` itself.
use Prim.Native.Nat.{ℕ, zero, suc, ◌+◌, ◌-◌, ◌*◌, ◌/◌, ◌%◌, ◌<◌, ◌≤◌}
use mathlib.Core.Path.{◌≡◌, refl, ◌∙◌}
use mathlib.Core.Logic.{inl, inr}
use mathlib.Core.Bool.{Bool, true, false, ◌&&◌, ◌||◌}
use mathlib.Core.Option.{Option, none, some}
use mathlib.Core.List.{[], ◌∷◌, ◌++◌}
use native.Mathlib.Omega.{arith}
use ecat_middleware_advr.Prelude.Tests.{ltb, leb, ◌==◌, if◌then◌else◌, Bool-cases}
use ecat_middleware_advr.Prelude.Lists.{is_empty}
use ecat_middleware_advr.Prelude.Texts.{Text}
use ecat_middleware_advr.Prelude.Int.{ℤ, pos, negsuc}

abbrev pub is_digit : ℕ → Bool
is_digit c = leb 48 c && leb c 57

-- `text.find_first_not_of("0123456789") == npos`.
unfoldable pub all_digits : Text → Bool
all_digits [] = true
all_digits (c ∷ s) = is_digit c && all_digits s

-- The value of a text of digits, behind the digits already read.
unfoldable pub decimal_from : ℕ → Text → ℕ
decimal_from acc [] = acc
decimal_from acc (c ∷ s) = decimal_from (acc * 10 + (c - 48)) s

digits : ℕ → ℕ → Text
digits zero n = []
digits (suc f) n =
    let front = digits f (n / 10) in if ltb n 10 then (48 + n) ∷ [] else front ++ (48 + n % 10) ∷ []

-- `std::to_string`.
unfoldable pub to_string : ℕ → Text
unfolding digits
to_string n = digits (suc n) n

decimal_from-append :
    (a : ℕ) (s t : Text) → decimal_from a (s ++ t) ≡ decimal_from (decimal_from a s) t
unfolding decimal_from
decimal_from-append a [] t = refl
decimal_from-append a (c ∷ s) t = decimal_from-append (a * 10 + (c - 48)) s t

all_digits-append : (s t : Text) → all_digits (s ++ t) ≡ (all_digits s && all_digits t)
unfolding all_digits
all_digits-append [] t = refl
all_digits-append (c ∷ s) t = ground (arith, all_digits-append s t)

decimal_from-snoc :
    (s : Text) (d : ℕ) → decimal_from 0 (s ++ (48 + d) ∷ []) ≡ decimal_from 0 s * 10 + d
decimal_from-snoc s d = decimal_from-append 0 s _ ∙ unfold decimal_from in omega arith

decimal_from-digits : (f n : ℕ) → n < f → decimal_from 0 (digits f n) ≡ n
unfolding digits
decimal_from-digits zero n h = elim h [ ]
decimal_from-digits (suc f) n h = elim (Bool-cases (ltb n 10)) [
  | inl e ↦ rw e (unfold decimal_from in omega arith)
  | inr e ↦ rw e (
      omega (
        arith,
        decimal_from-snoc (digits f (n / 10)) (n % 10),
        decimal_from-digits f (n / 10) (ground arith),
      ))
]

all_digits-digits : (f n : ℕ) → all_digits (digits f n) ≡ true
unfolding digits all_digits
all_digits-digits zero n = refl
all_digits-digits (suc f) n = ground (
  arith,
  all_digits-append (digits f (n / 10)) ((48 + n % 10) ∷ []),
  all_digits-digits f (n / 10),
)

pub decimal_from-to_string : (n : ℕ) → decimal_from 0 (to_string n) ≡ n
unfolding to_string
decimal_from-to_string n = decimal_from-digits (suc n) n (omega arith)

pub all_digits-to_string : (n : ℕ) → all_digits (to_string n) ≡ true
unfolding to_string
all_digits-to_string n = all_digits-digits (suc n) n

is_empty-snoc : (s : Text) (c : ℕ) → is_empty (s ++ c ∷ []) ≡ false
is_empty-snoc [] c = refl
is_empty-snoc (a ∷ s) c = refl

pub is_empty-to_string : (n : ℕ) → is_empty (to_string n) ≡ false
unfolding to_string
is_empty-to_string n = ground (arith, is_empty-snoc (digits n (n / 10)) (48 + n % 10))

-- The longest prefix of digits.
unfoldable pub digit_prefix : Text → Text
digit_prefix [] = []
digit_prefix (c ∷ s) = let rest = digit_prefix s in if is_digit c then c ∷ rest else []

abbrev is_space : ℕ → Bool
is_space c = c == 32 || (leb 9 c && leb c 13)

unfoldable pub skip_spaces : Text → Text
skip_spaces [] = []
skip_spaces (c ∷ s) = let rest = skip_spaces s in if is_space c then rest else c ∷ s

-- The number behind the sign; `none` is an exception: no digit, or out of the range of `int`.
unfoldable pub stoi_unsigned : Bool → Text → Option ℤ
stoi_unsigned negative s =
    let ds = digit_prefix s in
    let n = decimal_from 0 ds in
    if is_empty ds
    then none
    else if negative
    then (if leb n 2147483648 then some (if n == 0 then pos 0 else negsuc (n - 1)) else none)
    else if leb n 2147483647
    then some (pos n)
    else none

unfoldable pub stoi_signed : Text → Option ℤ
unfolding stoi_unsigned
stoi_signed [] = none
stoi_signed (c ∷ s) =
    if c == 45
    then stoi_unsigned true s
    else if c == 43
    then stoi_unsigned false s
    else stoi_unsigned false (c ∷ s)

-- `std::stoi`: white space, a sign, digits, and whatever follows them.
unfoldable pub stoi : Text → Option ℤ
unfolding stoi_signed
stoi s = stoi_signed (skip_spaces s)

pub digit_prefix-all_digits : (s : Text) → all_digits s ≡ true → digit_prefix s ≡ s
unfolding digit_prefix all_digits
digit_prefix-all_digits [] h = refl
digit_prefix-all_digits (c ∷ s) h = ground (arith, digit_prefix-all_digits s)

pub head_digit : (c : ℕ) (s : Text) → all_digits (c ∷ s) ≡ true → (48 ≤ c) × (c ≤ 57)
unfolding all_digits
head_digit c s h = ground arith

-- On a text of digits alone `std::stoi` is the number, if that is an `int`.
pub stoi-digits :
    (s : Text)
    → is_empty s ≡ false
    → all_digits s ≡ true
    → stoi s ≡ (if leb (decimal_from 0 s) 2147483647 then some (pos (decimal_from 0 s)) else none)
unfolding stoi skip_spaces
stoi-digits [] h k = cc
stoi-digits (c ∷ s) h k = ground (arith, head_digit c s k, digit_prefix-all_digits (c ∷ s) k)
