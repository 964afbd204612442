-- ===== src/Prelude/Text.antt =====
-- C strings in byte arrays: `strncpy` and `strcmp`. A byte 0 ends the text, and so does the end of
-- the list, which stands for the NUL of a string argument.
use Prim.Native.Nat.{ℕ, zero, suc, ◌≤◌, ◌<◌}
use mathlib.Core.Path.{◌≡◌, refl}
use mathlib.Core.Bool.{Bool, true, false}
use mathlib.Core.List.{List, [], ◌∷◌, ◌++◌}
use native.Mathlib.Omega.{arith}
use Prim.Native.Char.{code}
use Prim.Native.String.{String}
use libpolycall_v.Prelude.Tests.{◌==◌, if◌then◌else◌}
use libpolycall_v.Prelude.Lists.{length, replicate, length-replicate, length-append, take}

-- The bytes of an ASCII literal.
abbrev pub codes : String → List ℕ
codes String.[] = []
codes (String.◌∷◌ c s) = code c ∷ codes s

-- `strncpy` into `n` bytes: stops after the NUL, and pads with zeros.
unfoldable pub strncpy : ℕ → List ℕ → List ℕ
strncpy zero s = []
strncpy (suc n) [] = replicate (suc n) 0
strncpy (suc n) (c ∷ s) = if c == 0 then replicate (suc n) 0 else c ∷ strncpy n s

-- `strncpy(dst, s, n); dst[n] = '\0'`.
unfoldable pub store_name : ℕ → List ℕ → List ℕ
unfolding strncpy
store_name n s = strncpy n s ++ 0 ∷ []

-- `strcmp(a, b) == 0`.
unfoldable pub strcmp_eq : List ℕ → List ℕ → Bool
strcmp_eq [] [] = true
strcmp_eq [] (b ∷ bs) = b == 0
strcmp_eq (a ∷ xs) [] = a == 0
strcmp_eq (a ∷ xs) (b ∷ bs) = if a == b then (if a == 0 then true else strcmp_eq xs bs) else false

-- A string argument has no NUL inside.
abbrev pub IsText : List ℕ → Type 0
IsText [] = Unit {0}
IsText (c ∷ s) = (0 < c) × IsText s

length-strncpy : (n : ℕ) (s : List ℕ) → length (strncpy n s) ≡ n
unfolding strncpy
length-strncpy zero s = refl
length-strncpy (suc n) [] = length-replicate (suc n) 0
length-strncpy (suc n) (c ∷ s) =
    ground (arith, length-strncpy n s, length-replicate {A = ℕ} (suc n) 0)

pub length-store_name : (n : ℕ) (s : List ℕ) → length (store_name n s) ≡ suc n
unfolding store_name
length-store_name n s = omega (arith, length-append (strncpy n s) (0 ∷ []), length-strncpy n s)

-- A text that fits is found again under its name.
pub strcmp_eq-store_name :
    (n : ℕ) (s : List ℕ) → IsText s → length s ≤ n → strcmp_eq (store_name n s) s ≡ true
unfolding store_name strcmp_eq
strcmp_eq-store_name zero [] t h = ground arith
strcmp_eq-store_name zero (c ∷ s) t h = absurd (omega arith)
strcmp_eq-store_name (suc n) [] t h = ground arith
strcmp_eq-store_name (suc n) (c ∷ s) t h = ground (arith, strcmp_eq-store_name n s t.1)

-- What matches a stored name is no longer than the array allows.
pub length-le_of_stored :
    (n : ℕ) (s t : List ℕ) → IsText t → strcmp_eq (store_name n s) t ≡ true → length t ≤ n
unfolding store_name strcmp_eq
length-le_of_stored n s [] h e = omega arith
length-le_of_stored zero s (b ∷ t) h e = ground arith
length-le_of_stored (suc n) [] (b ∷ t) h e = ground arith
length-le_of_stored (suc n) (c ∷ s) (b ∷ t) h e = ground (arith, length-le_of_stored n s t h.1)

-- A text that fits matches nothing but itself.
pub eq_of_stored :
    (n : ℕ) (s t : List ℕ)
    → IsText s
    → IsText t
    → length s ≤ n
    → strcmp_eq (store_name n s) t ≡ true
    → s ≡ t
unfolding store_name strcmp_eq
eq_of_stored zero [] [] hs ht h e = refl
eq_of_stored zero [] (b ∷ t) hs ht h e = ground arith
eq_of_stored zero (c ∷ s) t hs ht h e = absurd (omega arith)
eq_of_stored (suc n) [] [] hs ht h e = refl
eq_of_stored (suc n) [] (b ∷ t) hs ht h e = ground arith
eq_of_stored (suc n) (c ∷ s) [] hs ht h e = ground arith
eq_of_stored (suc n) (c ∷ s) (b ∷ t) hs ht h e = ground (arith, eq_of_stored n s t hs.1 ht.1)

-- The text that a byte array holds: the bytes up to the first NUL.
unfoldable pub text_of : List ℕ → List ℕ
text_of [] = []
text_of (c ∷ cs) = if c == 0 then [] else c ∷ text_of cs

pub text_of-store_name : (n : ℕ) (s : List ℕ) → IsText s → text_of (store_name n s) ≡ take n s
unfolding text_of store_name
text_of-store_name zero s t = refl
text_of-store_name (suc n) [] t = refl
text_of-store_name (suc n) (c ∷ s) t = ground (arith, text_of-store_name n s t.1)
