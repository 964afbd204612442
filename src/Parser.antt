-- ===== src/Parser.antt =====
-- The parser of src/polycall_parser.c with include/polycall_parser.h: its nodes and its trees. The
-- nodes lie in a memory, and a pointer to one is its place in it.
use libpolycall_v.Prelude.{
  refl, none, some, true, false, zero, suc, [], inl, inr, ◌∷◌, List, ℕ, Bool, if◌then◌else◌, Option,
  get_or, set,
}
use libpolycall_v.Token.{Value, none_value}
pub mod Tree
pub mod Parse
pub mod Strings
pub mod Optimize
pub mod Endless
pub mod Refused
pub mod Found
mod Tests

pub data AstType : Type 0 where
  ast_none ast_program ast_function ast_variable ast_expression : AstType
  ast_statement ast_block ast_control_flow ast_error : AstType

-- The flag of a type.
abbrev pub ast_code : AstType → ℕ
ast_code ast_none = 0
ast_code ast_program = 1
ast_code ast_function = 2
ast_code ast_variable = 4
ast_code ast_expression = 8
ast_code ast_statement = 16
ast_code ast_block = 32
ast_code ast_control_flow = 64
ast_code ast_error = 128

-- `children` holds the children up to their count.
pub record AstNode : Type 0 where
  pub type : AstType
  pub attrs : ℕ
  pub value : Value
  pub line : ℕ
  pub column : ℕ
  pub children : List ℕ
  pub parent : Option ℕ

abbrev pub zero_node : AstNode
zero_node = record {
  type = ast_none;
  attrs = 0;
  value = none_value;
  line = 0;
  column = 0;
  children = [];
  parent = none;
}

-- A tree: its root and its flat array up to the count, none where the pointer is NULL.
pub record Ast : Type 0 where
  pub root : Option ℕ
  pub nodes : Option (List ℕ)
  pub capacity : ℕ

abbrev pub node_at : List AstNode → ℕ → AstNode
node_at memory i = get_or memory i zero_node

-- A node changed where it lies.
abbrev pub change : List AstNode → ℕ → AstNode → List AstNode
change memory i node = set memory i node
