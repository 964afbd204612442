-- ===== src/Tokenizer.antt =====
-- The tokenizer of src/polycall_tokenizer.c with include/polycall_tokenizer.h. A character is its
-- code; a string is read past its end as NUL, which is what terminates it.
use libpolycall_v.Prelude.{
  refl, none, some, true, false, zero, suc, [], inl, inr, ◌∷◌, List, ℕ, Bool, codes, Option, u32,
  set, ◌+◌, if◌then◌else◌, length, ◌==◌, ltb,
}
use libpolycall_v.Token.{TokenArray, create_array}
pub mod Match
pub mod Process
pub mod Short
pub mod Compose
mod Tests
pub mod Quoted
pub mod Prefixes
pub mod Numbers

pub data TokenizerState : Type 0 where
  ready scanning error end_of_input in_comment in_string in_number in_identifier : TokenizerState

abbrev pub buffer_overflow : List ℕ
buffer_overflow = codes "Buffer overflow"

abbrev pub invalid_input : List ℕ
invalid_input = codes "Invalid input"

-- `buffer` holds the bytes of the buffer, of which `size` were asked for.
pub record Tokenizer : Type 0 where
  pub buffer : List ℕ
  pub size : ℕ
  pub position : ℕ
  pub line : ℕ
  pub column : ℕ
  pub current : TokenizerState
  pub error_message : Option (List ℕ)
  pub error_count : ℕ
  pub tokens : TokenArray

-- `strdup` is taken to have memory for these two texts.
unfoldable pub set_error_state : Tokenizer → List ℕ → Tokenizer
set_error_state tokenizer message = record tokenizer {
  current = error;
  error_message = some message;
  error_count = u32 (tokenizer.error_count + 1);
}

unfoldable pub reset_state : Tokenizer → Tokenizer
reset_state tokenizer = record tokenizer {
  current = ready;
  line = 1;
  column = 1;
  position = 0;
  error_message = none;
}

-- `polycall_tokenizer_reset`.
unfoldable pub tokenizer_reset : Tokenizer → Tokenizer
tokenizer_reset tokenizer =
    let t = reset_state tokenizer in
    record t { tokens = record t.tokens { tokens = []; error_count = 0; line = 1; column = 1 } }

-- The bytes from an index on, written over.
abbrev pub write_all : List ℕ → ℕ → List ℕ → List ℕ
write_all buffer i [] = buffer
write_all buffer i (b ∷ bs) = write_all (set buffer i b) (i + 1) bs

-- `polycall_tokenizer_set_input`; the length is that of the bytes, NULL is `none`. A terminator
-- past the end of the buffer is not stored.
unfoldable pub set_input : Tokenizer → Option (List ℕ) → Tokenizer × Bool
set_input tokenizer none = (tokenizer, false)
set_input tokenizer (some input) =
    if length input == 0
    then (tokenizer, false)
    else if ltb tokenizer.size (length input)
    then (set_error_state tokenizer buffer_overflow, false)
    else (
      reset_state (record tokenizer {
        buffer = set (write_all tokenizer.buffer 0 input) (length input) 0;
        position = 0;
      }),
      true,
    )

unfoldable pub get_error : Option Tokenizer → Option (List ℕ)
get_error none = none
get_error (some tokenizer) = tokenizer.error_message

unfoldable pub tokenizer_state : Option Tokenizer → TokenizerState
tokenizer_state none = error
tokenizer_state (some tokenizer) = tokenizer.current
