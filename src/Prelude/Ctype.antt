-- ===== src/Prelude/Ctype.antt =====
-- The character classes of the C locale, and decimal numbers as `strtoul` reads and `%u` prints them.
use Prim.Native.Nat.{ℕ, zero, suc, ◌+◌, ◌-◌, ◌*◌, ◌/◌, ◌%◌, ◌<◌}
use mathlib.Core.Path.{◌≡◌}
use mathlib.Core.Bool.{Bool, true, ◌&&◌, ◌||◌}
use mathlib.Core.List.{List, [], ◌∷◌}
use native.Mathlib.Omega.{arith}
use libpolycall_v.Prelude.Tests.{◌==◌, leb, ltb, if◌then◌else◌}

abbrev pub between : ℕ → ℕ → ℕ → Bool
between lo hi c = leb lo c && leb c hi

abbrev pub is_digit : ℕ → Bool
is_digit c = between b'0' b'9' c

abbrev pub is_alpha : ℕ → Bool
is_alpha c = between b'A' b'Z' c || between b'a' b'z' c

-- `isspace`: the blank, and the codes 9 to 13.
abbrev pub is_space : ℕ → Bool
is_space c = c == 32 || between 9 13 c

-- The longest prefix of characters that pass, and what follows it.
unfoldable pub take_while : (ℕ → Bool) → List ℕ → List ℕ
take_while p [] = []
take_while p (c ∷ s) = let rest = take_while p s in if p c then c ∷ rest else []

unfoldable pub drop_while : (ℕ → Bool) → List ℕ → List ℕ
drop_while p [] = []
drop_while p (c ∷ s) = let rest = drop_while p s in if p c then rest else c ∷ s

-- The number that digits spell, after those that spell `acc`.
unfoldable pub number_from : ℕ → List ℕ → ℕ
number_from acc [] = acc
number_from acc (c ∷ s) = number_from (acc * 10 + (c - 48)) s

-- The digits of a number, before `out`; `fuel` is more than the number.
unfoldable pub digits_onto : ℕ → ℕ → List ℕ → List ℕ
digits_onto zero n out = out
digits_onto (suc fuel) n out =
    let rest = digits_onto fuel (n / 10) ((48 + n % 10) ∷ out) in
    if ltb n 10 then (48 + n) ∷ out else rest

-- `%u`.
unfoldable pub decimal : ℕ → List ℕ
decimal n = digits_onto (suc n) n []

number_from-digits_onto :
    (fuel n : ℕ) (out : List ℕ)
    → n < fuel
    → number_from 0 (digits_onto fuel n out) ≡ number_from n out
unfolding number_from digits_onto
number_from-digits_onto zero n out h = absurd (omega (arith, h))
number_from-digits_onto (suc fuel) n out h =
    ground (arith, h, number_from-digits_onto fuel (n / 10) ((48 + n % 10) ∷ out))

pub number_from-decimal : (n : ℕ) → number_from 0 (decimal n) ≡ n
unfolding decimal number_from
number_from-decimal n = number_from-digits_onto (suc n) n [] (omega arith)

abbrev pub AllPass : (ℕ → Bool) → List ℕ → Type 0
AllPass p [] = Unit {0}
AllPass p (c ∷ s) = (p c ≡ true) × AllPass p s

AllPass-digits_onto :
    (fuel n : ℕ) (out : List ℕ) → AllPass is_digit out → AllPass is_digit (digits_onto fuel n out)
unfolding digits_onto
AllPass-digits_onto zero n out a = a
AllPass-digits_onto (suc fuel) n out a =
    ground (arith, a, AllPass-digits_onto fuel (n / 10) ((48 + n % 10) ∷ out))

pub AllPass-decimal : (n : ℕ) → AllPass is_digit (decimal n)
unfolding decimal
AllPass-decimal n = AllPass-digits_onto (suc n) n [] tt
