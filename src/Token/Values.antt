-- ===== src/Token/Values.antt =====
-- Creating, destroying and comparing values.
use libpolycall_v.Token.{none_value, int_value, float_value, string_value, identifier_value, Value}
use libpolycall_v.Prelude.{
  if◌then◌else◌, refl, none, some, true, false, [], ◌∷◌, List, ℕ, Bool, Option, ◌==◌, ◌≡◌, ◌&&◌,
  arith, ◌↔◌, length,
}

pub data ValueType : Type 0 where
  none_type int_type float_type string_type identifier_type : ValueType

-- What the memory behind a data pointer reads as, by the type it is read at; the characters go up
-- to the terminating NUL.
pub record Pointed : Type 0 where
  pub as_int : ℕ
  pub as_float : ℕ
  pub as_chars : List ℕ

unfoldable pub value_create : Bool → ValueType → Option Pointed → Value
value_create alloc none_type data_ptr = none_value
value_create alloc int_type none = int_value 0
value_create alloc int_type (some p) = int_value p.as_int
value_create alloc float_type none = float_value 0
value_create alloc float_type (some p) = float_value p.as_float
value_create alloc string_type none = string_value none
value_create alloc string_type (some p) =
    if alloc then string_value (some p.as_chars) else none_value
value_create alloc identifier_type none = identifier_value none
value_create alloc identifier_type (some p) =
    if alloc then identifier_value (some p.as_chars) else none_value

-- The value that is left behind.
unfoldable pub value_destroy : Value → Value
value_destroy value = none_value

-- The bytes that a comparison reads: none behind a NULL pointer, whose length is 0.
abbrev pub bytes_of : Option (List ℕ) → List ℕ
bytes_of none = []
bytes_of (some bytes) = bytes

-- `memcmp` on two buffers of the same length.
unfoldable pub same_bytes : List ℕ → List ℕ → Bool
same_bytes [] [] = true
same_bytes [] (b ∷ ys) = false
same_bytes (a ∷ xs) [] = false
same_bytes (a ∷ xs) (b ∷ ys) = a == b && same_bytes xs ys

abbrev pub strings_equal : Option (List ℕ) → Option (List ℕ) → Bool
strings_equal a b =
    if length (bytes_of a) == length (bytes_of b)
    then same_bytes (bytes_of a) (bytes_of b)
    else false

-- `float_eq` is the machine's `==` on floating-point numbers.
module _ (float_eq : ℕ → ℕ → Bool) where
  unfoldable pub value_equals : Option Value → Option Value → Bool
  value_equals (some none_value) (some none_value) = true
  value_equals (some (int_value a)) (some (int_value b)) = a == b
  value_equals (some (float_value a)) (some (float_value b)) = float_eq a b
  value_equals (some (string_value a)) (some (string_value b)) = strings_equal a b
  value_equals (some (identifier_value a)) (some (identifier_value b)) = strings_equal a b
  value_equals _ _ = false

same_bytes-eq : (xs ys : List ℕ) → same_bytes xs ys ≡ true → xs ≡ ys
unfolding same_bytes
same_bytes-eq [] [] h = refl
same_bytes-eq [] (b ∷ ys) h = ground (arith, h)
same_bytes-eq (a ∷ xs) [] h = ground (arith, h)
same_bytes-eq (a ∷ xs) (b ∷ ys) h = ground (arith, h, same_bytes-eq xs ys)

same_bytes_refl : (xs : List ℕ) → same_bytes xs xs ≡ true
unfolding same_bytes
same_bytes_refl [] = refl
same_bytes_refl (a ∷ xs) = ground (arith, same_bytes_refl xs)

strings_equal_iff : (xs ys : List ℕ) → (strings_equal (some xs) (some ys) ≡ true) ↔ (xs ≡ ys)
strings_equal_iff xs ys =
    (λ h. same_bytes-eq xs ys (ground (arith, h)), λ e. rw e (ground (arith, same_bytes_refl ys)))

-- Where memory is there, two values made from the same kind of data are equal exactly when the
-- data are: integers by their bits, strings and identifiers by their characters.
pub value_equals-value_create :
    (float_eq : ℕ → ℕ → Bool) (p q : Pointed)
    → ((value_equals float_eq
            (some (value_create true int_type (some p)))
            (some (value_create true int_type (some q)))
          ≡ true)
        ↔ (p.as_int ≡ q.as_int))
      × ((value_equals float_eq
              (some (value_create true string_type (some p)))
              (some (value_create true string_type (some q)))
            ≡ true)
          ↔ (p.as_chars ≡ q.as_chars))
      × ((value_equals float_eq
              (some (value_create true identifier_type (some p)))
              (some (value_create true identifier_type (some q)))
            ≡ true)
          ↔ (p.as_chars ≡ q.as_chars))
unfolding value_equals value_create
value_equals-value_create float_eq p q =
    (ground arith, strings_equal_iff p.as_chars q.as_chars, strings_equal_iff p.as_chars q.as_chars)
