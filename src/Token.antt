-- ===== src/Token.antt =====
-- Tokens, their values and token arrays: src/polycall_token.c with include/polycall_token.h. What
-- malloc, calloc and realloc answer is an argument: `true` where they return memory.
use libpolycall_v.Prelude.{
  refl, none, some, true, false, zero, suc, [], inl, inr, ◌∷◌, List, ℕ, Bool, Option, if◌then◌else◌,
  ◌==◌, leb, length, ◌++◌, u32, ◌*◌,
}
pub mod Values
pub mod Filtered
mod Tests

-- A value with its tag. Integers and floating-point numbers are given by their 64 bits; the bytes
-- of a string are `none` where the pointer is NULL.
pub data Value : Type 0 where
  none_value : Value
  int_value : (bits : ℕ) → Value
  float_value : (bits : ℕ) → Value
  string_value : (bytes : Option (List ℕ)) → Value
  identifier_value : (bytes : Option (List ℕ)) → Value

pub data TokenType : Type 0 where
  invalid identifier number text operator keyword separator comment eof : TokenType

pub record Token : Type 0 where
  pub value : Value
  pub type : TokenType
  pub flags : ℕ
  pub line : ℕ
  pub column : ℕ
  pub length : ℕ

-- `tokens` holds the tokens up to the count.
pub record TokenArray : Type 0 where
  pub tokens : List Token
  pub capacity : ℕ
  pub error_count : ℕ
  pub line : ℕ
  pub column : ℕ

unfoldable pub create_array : Bool → ℕ → Option TokenArray
create_array alloc capacity =
    if alloc
    then some (record {
      tokens = [];
      capacity = if capacity == 0 then 16 else capacity;
      error_count = 0;
      line = 1;
      column = 1;
    })
    else none

abbrev pub flag_error : ℕ
flag_error = 4

-- The operation on a token, or the invalid token for a NULL argument.
unfoldable pub token_map : Option Token → Option (Token → Token) → Token
token_map (some token) (some op) = op token
token_map _ _ = record {
  value = none_value;
  type = invalid;
  flags = flag_error;
  line = 0;
  column = 0;
  length = 0;
}

-- The token is put at the end, in twice the memory when the array is full.
unfoldable pub push : Bool → TokenArray → Token → Option TokenArray
push alloc result token =
    if leb result.capacity (length result.tokens)
    then if alloc
      then some (record result {
        tokens = result.tokens ++ token ∷ [];
        capacity = u32 (result.capacity * 2);
      })
      else none
    else some (record result { tokens = result.tokens ++ token ∷ [] })

unfoldable pub filter_from : Bool → (Token → Bool) → List Token → TokenArray → Option TokenArray
filter_from alloc pred [] result = some result
filter_from alloc pred (token ∷ tokens) result =
    elim (if pred token then push alloc result token else some result) [
      | none ↦ none
      | some pushed ↦ filter_from alloc pred tokens pushed
    ]

-- `grows` is what realloc answers, `alloc` what calloc answers.
unfoldable pub token_filter :
    (alloc grows : Bool) → Option TokenArray → Option (Token → Bool) → Option TokenArray
token_filter alloc grows (some array) (some pred) = elim (create_array alloc array.capacity) [
  | none ↦ none
  | some result ↦ filter_from grows pred array.tokens result
]
token_filter alloc grows _ _ = none

-- A NULL operation is skipped.
abbrev pub apply_op : Option (Token → Token) → Token → Token
apply_op none token = token
apply_op (some op) token = op token

unfoldable pub apply_ops : List (Option (Token → Token)) → Token → Token
apply_ops [] current = current
apply_ops (op ∷ ops) current = apply_ops ops (apply_op op current)

unfoldable pub chain_from :
    Bool → List (Option (Token → Token)) → List Token → TokenArray → Option TokenArray
chain_from alloc ops [] result = some result
chain_from alloc ops (token ∷ tokens) result = elim (push alloc result (apply_ops ops token)) [
  | none ↦ none
  | some pushed ↦ chain_from alloc ops tokens pushed
]

unfoldable pub token_chain :
    (alloc grows : Bool)
    → Option TokenArray
    → Option (List (Option (Token → Token)))
    → Option TokenArray
token_chain alloc grows (some array) (some (op ∷ ops)) = elim (create_array alloc array.capacity) [
  | none ↦ none
  | some result ↦ chain_from grows (op ∷ ops) array.tokens result
]
token_chain alloc grows _ _ = none
