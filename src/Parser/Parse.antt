-- ===== src/Parser/Parse.antt =====
-- Parsing tokens and texts. The loops run on fuel, one for each round, and `none` says that it was
-- not enough; the arrays of children, which have 16 places or one, are lists without the bound,
-- which the code does not test. calloc is taken to give memory.
use mathlib.Core.Option
use libpolycall_v.Token.{
  Token, TokenType, Value, none_value, identifier, number, text, separator, eof,
}
use libpolycall_v.Tokenizer.Process.{type_code}
use libpolycall_v.Prelude.{
  none, some, true, false, zero, suc, [], ◌∷◌, List, ℕ, Bool, if◌then◌else◌, Option, not, ◌+◌, ◌==◌,
  leb, ◌||◌, is_some, length, ◌++◌,
}
use libpolycall_v.Parser.{
  AstType, AstNode, ast_expression, ast_block, ast_function, ast_statement, Ast, zero_node,
  ast_program,
}
use libpolycall_v.Parser.Tree.{with_child}

pub record ParserConfig : Type 0 where
  pub max_depth : ℕ
  pub max_nodes : ℕ
  pub optimization_level : ℕ
  pub strict_mode : Bool

abbrev pub default_config : ParserConfig
default_config = record {
  max_depth = 256;
  max_nodes = 65536;
  optimization_level = 0;
  strict_mode = true;
}

-- The parser's state; `pool` holds the nodes in use, of `capacity` nodes.
pub record ParserState : Type 0 where
  pub current_token : Option Token
  pub token_index : ℕ
  pub pool : List AstNode
  pub capacity : ℕ

unfoldable pub token_at : List Token → ℕ → Option Token
token_at [] i = none
token_at (t ∷ tokens) zero = some t
token_at (t ∷ tokens) (suc i) = token_at tokens i

abbrev moved_to : ParserState → Option Token → ParserState × Bool
moved_to state none = (state, false)
moved_to state (some t) =
    (record state { current_token = some t; token_index = state.token_index + 1 }, true)

unfoldable pub advance_token : ParserState → List Token → ParserState × Bool
advance_token state tokens = moved_to state (token_at tokens state.token_index)

abbrev pub is_type : TokenType → Option Token → Bool
is_type type none = false
is_type type (some t) = type_code t.type == type_code type

unfoldable pub expect_token : ParserState → List Token → TokenType → ParserState × Bool
expect_token state tokens type =
    if is_type type state.current_token then advance_token state tokens else (state, false)

-- A node from the pool, with its type and its value.
unfoldable pub allocate_node : ParserState → AstType → Value → Option (ParserState × ℕ)
allocate_node state type value =
    if leb state.capacity (length state.pool)
    then none
    else some (
      record state { pool = state.pool ++ record zero_node { type = type; value = value } ∷ [] },
      length state.pool,
    )

-- A node becomes the last child of another.
abbrev pub adopt : ParserState → ℕ → ℕ → ParserState
adopt state parent child = record state { pool = with_child state.pool parent child }

abbrev pub adopt_if : ParserState → ℕ → Option ℕ → ParserState
adopt_if state parent none = state
adopt_if state parent (some child) = adopt state parent child

abbrev advanced : List Token → Option (ParserState × ℕ) → ParserState → ParserState × Option ℕ
advanced tokens none state = (state, none)
advanced tokens (some (next, node)) state = ((advance_token next tokens).0, some node)

abbrev starts_expression : Option Token → Bool
starts_expression current =
    is_type number current || is_type text current || is_type identifier current

abbrev value_of_token : Option Token → Value
value_of_token none = none_value
value_of_token (some t) = t.value

unfoldable pub parse_expression : ParserState → List Token → ParserState × Option ℕ
parse_expression state tokens =
    if starts_expression state.current_token
    then advanced tokens (allocate_node state ast_expression (value_of_token state.current_token))
        state
    else (state, none)

abbrev statement_in : List Token → ParserState → Option (ParserState × ℕ) → ParserState × Option ℕ
statement_in tokens state none = (state, none)
statement_in tokens state (some (next, node)) =
    let expr = parse_expression next tokens in (adopt_if expr.0 node expr.1, some node)

unfoldable pub parse_statement : ParserState → List Token → ParserState × Option ℕ
parse_statement state tokens =
    if is_some state.current_token
    then statement_in tokens state (allocate_node state ast_statement none_value)
    else (state, none)

abbrev pub at_separator_or_end : ParserState → Bool
at_separator_or_end state =
    not (is_some state.current_token) || is_type separator state.current_token

-- The loop of `parse_block`.
unfoldable pub block_loop : ℕ → ParserState → List Token → ℕ → Option ParserState
block_loop zero state tokens node = none
block_loop (suc fuel) state tokens node =
    let statement = parse_statement state tokens in
    let rest = block_loop fuel (adopt_if statement.0 node statement.1) tokens node in
    if at_separator_or_end state then some state else rest

abbrev block_in :
    ℕ → List Token → ParserState → Option (ParserState × ℕ) → Option (ParserState × Option ℕ)
block_in fuel tokens state none = some (state, none)
block_in fuel tokens state (some (next, node)) = elim (block_loop fuel next tokens node) [
  | none ↦ none
  | some last ↦ some ((expect_token last tokens separator).0, some node)
]

unfoldable pub parse_block : ℕ → ParserState → List Token → Option (ParserState × Option ℕ)
parse_block fuel state tokens =
    let opened = expect_token state tokens separator in
    if opened.1
    then block_in fuel tokens opened.0 (allocate_node opened.0 ast_block none_value)
    else some (opened.0, none)

-- The loop over the parameters.
unfoldable pub skip_loop : ℕ → ParserState → List Token → Option ParserState
skip_loop zero state tokens = none
skip_loop (suc fuel) state tokens =
    let rest = skip_loop fuel (advance_token state tokens).0 tokens in
    if at_separator_or_end state then some state else rest

abbrev with_body : ℕ → Option (ParserState × Option ℕ) → Option (ParserState × Option ℕ)
with_body node none = none
with_body node (some (state, body)) = some (adopt_if state node body, some node)

abbrev function_in :
    ℕ → List Token → ParserState → Option (ParserState × ℕ) → Option (ParserState × Option ℕ)
function_in fuel tokens state none = some (state, none)
function_in fuel tokens state (some (next, node)) =
    elim (skip_loop fuel (expect_token next tokens separator).0 tokens) [
      | none ↦ none
      | some skipped ↦
          with_body node (parse_block fuel (expect_token skipped tokens separator).0 tokens)
    ]

unfoldable pub parse_function : ℕ → ParserState → List Token → Option (ParserState × Option ℕ)
parse_function fuel state tokens =
    let named = expect_token state tokens identifier in
    if named.1
    then function_in fuel tokens named.0
        (allocate_node named.0 ast_function (value_of_token named.0.current_token))
    else some (named.0, none)

abbrev pub at_end : ParserState → Bool
at_end state = not (is_some state.current_token) || is_type eof state.current_token

-- The loop of `parse_tokens`.
unfoldable pub program_loop : ℕ → ParserState → List Token → ℕ → Option ParserState
program_loop zero state tokens root = none
program_loop (suc fuel) state tokens root =
    if at_end state then some state else elim (parse_function fuel state tokens) [
      | none ↦ none
      | some (next, node) ↦ program_loop fuel (adopt_if next root node) tokens root
    ]

unfoldable pub indices : ℕ → ℕ → List ℕ
indices i zero = []
indices i (suc n) = i ∷ indices (i + 1) n

-- The tree, with the memory of its nodes, which the code frees before it gives the tree out.
abbrev pub tree_of : Option ℕ → ParserState → List AstNode × Ast
tree_of root state = (
  state.pool,
  record {
    root = root;
    nodes = some (indices 0 (length state.pool));
    capacity = length state.pool;
  },
)

abbrev pub program_in :
    ℕ → List Token → ParserState → Option (ParserState × ℕ) → Option (List AstNode × Ast)
program_in fuel tokens state none = some (tree_of none state)
program_in fuel tokens state (some (next, root)) =
    Option.map (tree_of (some root)) (program_loop fuel next tokens root)

unfoldable pub first_state : ParserConfig → List Token → ParserState
first_state config tokens = record {
  current_token = token_at tokens 0;
  token_index = 0;
  pool = [];
  capacity = config.max_nodes;
}

unfoldable pub parse_tokens : ℕ → ParserConfig → List Token → Option (List AstNode × Ast)
parse_tokens fuel config tokens =
    let state = first_state config tokens in
    program_in fuel tokens state (allocate_node state ast_program none_value)
