-- ===== src/Parser/Strings.antt =====
-- The parser itself, and the parsing of a text.
use mathlib.Core.Option
use libpolycall_v.Token.{Token}
use libpolycall_v.Tokenizer.Process.{tokenizer_process}
use libpolycall_v.Tokenizer.{Tokenizer, set_input}
use libpolycall_v.Prelude.{
  none, some, true, false, [], ◌∷◌, List, ℕ, Bool, if◌then◌else◌, Option, take, ◌==◌, or_else,
  codes, length, ◌++◌,
}
use libpolycall_v.Parser.{AstNode, Ast}
use libpolycall_v.Parser.Parse.{ParserConfig, parse_tokens, default_config}

pub record PolycallParser : Type 0 where
  pub tokenizer : Tokenizer
  pub config : ParserConfig
  pub message : List ℕ
  pub line : ℕ
  pub column : ℕ

unfoldable pub last_token : List Token → Option Token
last_token [] = none
last_token (t ∷ tokens) = or_else (last_token tokens) (some t)

abbrev pub located : PolycallParser → Option Token → PolycallParser
located parser none = parser
located parser (some t) = record parser { line = t.line; column = t.column }

-- `set_parser_error` with a text without conversions.
unfoldable pub set_parser_error : PolycallParser → List ℕ → PolycallParser
set_parser_error parser message =
    located (record parser { message = take 254 message })
      (last_token parser.tokenizer.tokens.tokens)

abbrev pub Tree : Type 0
Tree = Option (List AstNode × Ast)

abbrev pub parsed_with :
    ℕ → PolycallParser → Option (Tokenizer × Bool) → Option (PolycallParser × Tree)
parsed_with fuel parser none = none
parsed_with fuel parser (some (tokenizer, false)) =
    some (
      set_parser_error (record parser { tokenizer = tokenizer }) (codes "Tokenization failed"),
      none,
    )
parsed_with fuel parser (some (tokenizer, true)) =
    Option.map (λ tree. (record parser { tokenizer = tokenizer }, some tree))
      (parse_tokens fuel parser.config tokenizer.tokens.tokens)

-- `polycall_parser_parse_string`: it gives the tokenizer no operations.
unfoldable pub parse_string :
    (List ℕ → ℕ)
    → (List ℕ → ℕ)
    → ℕ
    → PolycallParser
    → Option (List ℕ)
    → Option (PolycallParser × Tree)
parse_string strtod strtoll fuel parser none = some (parser, none)
parse_string strtod strtoll fuel parser (some input) =
    if length input == 0
    then some (parser, none)
    else let given = set_input parser.tokenizer (some input) in
      let next = record parser { tokenizer = given.0 } in
      if given.1
      then parsed_with fuel next (tokenizer_process strtod strtoll given.0 [])
      else some (set_parser_error next (codes "Failed to set parser input"), none)

abbrev config_or_default : Option ParserConfig → ParserConfig
config_or_default none = default_config
config_or_default (some config) = config

-- `polycall_parser_create`, on what `polycall_tokenizer_create` gave.
unfoldable pub parser_create : Bool → Option ParserConfig → Option Tokenizer → Option PolycallParser
parser_create alloc config none = none
parser_create alloc config (some tokenizer) =
    if alloc
    then some (record {
      tokenizer = tokenizer;
      config = config_or_default config;
      message = [];
      line = 0;
      column = 0;
    })
    else none

abbrev pub parser_get_error : Option PolycallParser → List ℕ
parser_get_error none = codes "Invalid parser"
parser_get_error (some parser) = parser.message

-- `polycall_parser_parse_file`; a file that opens is read whole.
unfoldable pub parse_file :
    (List ℕ → Option (List ℕ))
    → (List ℕ → ℕ)
    → (List ℕ → ℕ)
    → ℕ
    → PolycallParser
    → Option (List ℕ)
    → Option (PolycallParser × Tree)
parse_file files strtod strtoll fuel parser none = some (parser, none)
parse_file files strtod strtoll fuel parser (some filename) = elim (files filename) [
  | none ↦ some (set_parser_error parser (codes "Failed to open file: " ++ filename), none)
  | some content ↦ parse_string strtod strtoll fuel parser (some content)
]
