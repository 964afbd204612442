-- ===== src/Parser/Tests.antt =====
-- Runs of the parser, and the theorems at them.
use libpolycall_v.Token.{
  Token, TokenType, TokenArray, none_value, identifier, separator, eof, operator,
}
use libpolycall_v.Tokenizer.{ready}
use libpolycall_v.Prelude.{
  refl, none, some, true, zero, suc, [], ◌∷◌, List, ℕ, replicate, codes, ◌≡◌, arith, length, map,
  Option,
}
use mathlib.Core.Option
use libpolycall_v.Parser.{AstType, AstNode, zero_node, ast_program, ast_block, ast_code, Ast}
use libpolycall_v.Parser.Parse.{
  parse_tokens, first_state, default_config, token_at, allocate_node, program_loop, parse_function,
  expect_token, advance_token, skip_loop, parse_block, block_loop, parse_statement,
  parse_expression,
}
use libpolycall_v.Parser.Strings.{PolycallParser, parse_string}
use libpolycall_v.Parser.Tree.{
  ast_validate, find_nodes, visit, join_all, add_child, validate_node_structure, kept, all_of,
  has_type,
}
use libpolycall_v.Parser.Refused.{IsRefusedText, parse_string_refused}
use libpolycall_v.Parser.Endless.{parse_tokens_endless}
use libpolycall_v.Parser.Found.{array_of, find_nodes_lem}
use libpolycall_v.Parser.Optimize.{ast_optimize, optimize_node, optimize_children}

abbrev of_type : TokenType → Token
of_type type = record {
  value = none_value;
  type = type;
  flags = 0;
  line = 1;
  column = 1;
  length = 1;
}

abbrev node_of : AstType → AstNode
node_of type = record zero_node { type = type }

abbrev separators : ℕ → List Token
separators zero = of_type eof ∷ []
separators (suc n) = of_type separator ∷ separators n

abbrev types_of : Option (List AstNode × Ast) → List ℕ
types_of none = []
types_of (some (memory, ast)) = map (λ n. ast_code n.type) memory

-- The first token stays the current one after the first step, so a function is read from a name
-- and three separators.
parse_three_separators :
    types_of (parse_tokens 5 default_config (of_type identifier ∷ separators 3)) ≡ 1 ∷ 2 ∷ 32 ∷ []
unfolding parse_tokens first_state token_at allocate_node program_loop parse_function expect_token
    advance_token skip_loop parse_block block_loop parse_statement parse_expression
parse_three_separators = refl

-- With the fourth, as in `f(){}`, the loop stays at it.
parse_four_separators : parse_tokens 9 default_config (of_type identifier ∷ separators 4) ≡ none
unfolding parse_tokens first_state token_at allocate_node program_loop parse_function expect_token
    advance_token skip_loop parse_block block_loop parse_statement parse_expression
parse_four_separators = refl

abbrev pair : List AstNode
pair = node_of ast_program ∷ node_of ast_block ∷ node_of ast_block ∷ []

-- A child that was added is found by the visit, and the tree is valid.
added_child_is_valid :
    ast_validate 3
      (add_child true pair (some 0) (some 2)).0
      (record { root = some 0; nodes = some (0 ∷ 2 ∷ []); capacity = 2 })
    ≡ some true
unfolding ast_validate visit join_all add_child validate_node_structure all_of
added_child_is_valid = refl

abbrev no_tokens : TokenArray
no_tokens = record { tokens = []; capacity = 4; error_count = 0; line = 1; column = 1 }

abbrev parser : PolycallParser
parser = record {
  tokenizer = record {
    buffer = replicate 6 0;
    size = 6;
    position = 0;
    line = 1;
    column = 1;
    current = ready;
    error_message = none;
    error_count = 0;
    tokens = no_tokens;
  };
  config = default_config;
  message = [];
  line = 0;
  column = 0;
}

parse_string_refused_example :
    IsRefusedText (parse_string (λ s. 0) (λ s. 0) 9 parser (some (codes "f(x)")))
parse_string_refused_example =
    parse_string_refused (λ s. 0) (λ s. 0) 9 parser (codes "f(x)") refl (omega arith) (omega arith)

parse_tokens_endless_example :
    parse_tokens 100 default_config (of_type operator ∷ of_type eof ∷ []) ≡ none
parse_tokens_endless_example =
    parse_tokens_endless 100 default_config (of_type operator) (of_type eof ∷ []) (omega arith) refl
      refl

find_nodes_lem_example :
    find_nodes true pair
      (record { root = some 0; nodes = some (0 ∷ 1 ∷ 2 ∷ []); capacity = 3 })
      ast_block
    ≡ some (
      array_of (kept (has_type pair ast_block) (0 ∷ 1 ∷ 2 ∷ [])),
      length (kept (has_type pair ast_block) (0 ∷ 1 ∷ 2 ∷ [])),
    )
find_nodes_lem_example =
    find_nodes_lem pair (record { root = some 0; nodes = some (0 ∷ 1 ∷ 2 ∷ []); capacity = 3 })
      (0 ∷ 1 ∷ 2 ∷ []) ast_block refl (omega arith)

abbrev family : List AstNode
family = record (node_of ast_program) { children = 1 ∷ [] } ∷ node_of ast_block ∷ []

-- The optimised tree has the root alone.
optimized_root :
    Option.map
      (λ r. Option.map (λ ast. ast.nodes) r.1)
      (ast_optimize 9 family (record { root = some 0; nodes = some (0 ∷ 1 ∷ []); capacity = 2 }) 2)
    ≡ some (some (some (2 ∷ [])))
unfolding ast_optimize optimize_node optimize_children visit join_all
optimized_root = refl
