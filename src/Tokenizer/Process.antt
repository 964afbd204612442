-- ===== src/Tokenizer/Process.antt =====
-- The scan of the buffer. `strtod` and `strtoll` are what the C library makes of a text: the bits
-- of the number at its start.
use libpolycall_v.Token.{
  Token, TokenType, Value, TokenArray, none_value, int_value, float_value, string_value,
  identifier_value, invalid, identifier, number, text, operator, keyword, separator, comment, eof,
}
use libpolycall_v.Tokenizer.{ready, scanning, Tokenizer, set_error_state, invalid_input}
use libpolycall_v.Prelude.{
  none, some, true, false, zero, suc, [], ◌∷◌, List, ℕ, Bool, if◌then◌else◌, Option, ◌==◌, ltb,
  take, length, ◌-◌, ◌+◌, drop, ◌++◌, u32, is_space,
}

-- A pattern and the consumer at the same index.
pub record Operation : Type 0 where
  pub match : List ℕ → Option ℕ
  pub produces : TokenType
  pub accepts : TokenType
  pub consume : Token → Token

-- The flags of the token types.
abbrev pub type_code : TokenType → ℕ
type_code invalid = 0
type_code identifier = 1
type_code number = 2
type_code text = 4
type_code operator = 8
type_code keyword = 16
type_code separator = 32
type_code comment = 64
type_code eof = 128

-- `strchr(start, '.') != NULL`.
unfoldable pub has_dot : List ℕ → Bool
has_dot [] = false
has_dot (c ∷ s) = if c == 0 then false else if c == b'.' then true else has_dot s

-- The token goes in while there is room for it.
unfoldable pub add_token : TokenArray → Token → TokenArray
add_token array token =
    if ltb (length array.tokens) array.capacity
    then record array { tokens = array.tokens ++ token ∷ [] }
    else array

module _ (strtod strtoll : List ℕ → ℕ) where
  -- A string is at least its two quotes long.
  abbrev pub value_of : TokenType → List ℕ → ℕ → Value
  value_of identifier start length = identifier_value (some (take length start))
  value_of number start length =
      if has_dot start then float_value (strtod start) else int_value (strtoll start)
  value_of text start length = string_value (some (take (length - 2) (drop 1 start)))
  value_of _ start length = none_value

  unfoldable pub create_token : Tokenizer → TokenType → List ℕ → ℕ → Token
  create_token tokenizer type start length = record {
    value = value_of type start length;
    type = type;
    flags = 0;
    line = u32 tokenizer.line;
    column = u32 tokenizer.column;
    length = u32 length;
  }

  -- The first pattern that matches, with the tokenizer after its token.
  unfoldable pub try_patterns : Tokenizer → List Operation → List ℕ → Option Tokenizer
  try_patterns tokenizer [] current = none
  try_patterns tokenizer (op ∷ ops) current = elim (op.match current) [
    | none ↦ try_patterns tokenizer ops current
    | some length ↦
        let token = create_token tokenizer op.produces current length in
        let consumed =
          if type_code op.accepts == type_code token.type then op.consume token else token in
        some (record tokenizer {
          tokens = add_token tokenizer.tokens consumed;
          position = tokenizer.position + length;
          column = tokenizer.column + length;
        })
  ]

  abbrev pub skip_space : Tokenizer → ℕ → Tokenizer
  skip_space tokenizer c =
      if c == 10
      then record tokenizer {
        line = tokenizer.line + 1;
        column = 1;
        position = tokenizer.position + 1;
      }
      else record tokenizer { column = tokenizer.column + 1; position = tokenizer.position + 1 }

  abbrev pub eof_token : Tokenizer → Token
  eof_token tokenizer = record {
    value = none_value;
    type = eof;
    flags = 0;
    line = u32 tokenizer.line;
    column = u32 tokenizer.column;
    length = 0;
  }

  -- The end of the scan.
  abbrev pub finish : Tokenizer → Tokenizer × Bool
  finish tokenizer = (
    record tokenizer { tokens = add_token tokenizer.tokens (eof_token tokenizer); current = ready },
    true,
  )

  -- One round at the text that is left: the tokenizer after it, or `none` when nothing matches.
  abbrev pub round : Tokenizer → List Operation → List ℕ → Option Tokenizer
  round tokenizer ops [] = none
  round tokenizer ops (c ∷ s) =
      if is_space c then some (skip_space tokenizer c) else try_patterns tokenizer ops (c ∷ s)

  -- The loop, for at most `fuel` rounds; `none` when they are used up.
  unfoldable pub scan : ℕ → Tokenizer → List Operation → Option (Tokenizer × Bool)
  scan zero tokenizer ops = none
  scan (suc fuel) tokenizer ops =
      if ltb tokenizer.position tokenizer.size
      then elim (round tokenizer ops (drop tokenizer.position tokenizer.buffer)) [
        | none ↦ some (set_error_state tokenizer invalid_input, false)
        | some next ↦ scan fuel next ops
      ]
      else some (finish tokenizer)

  -- `polycall_tokenizer_process` with the fuel that patterns which consume something need.
  unfoldable pub tokenizer_process : Tokenizer → List Operation → Option (Tokenizer × Bool)
  tokenizer_process tokenizer ops =
      scan (suc (tokenizer.size - tokenizer.position)) (record tokenizer { current = scanning }) ops
