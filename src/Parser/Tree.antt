-- ===== src/Parser/Tree.antt =====
-- The operations on nodes and trees. What calloc and realloc answer is an argument.
use mathlib.Core.Option
use libpolycall_v.Prelude.{
  none, some, true, false, zero, suc, [], ◌∷◌, List, ℕ, Bool, if◌then◌else◌, Option, ◌&&◌, length,
  u32, ◌++◌, ◌+◌, ◌==◌, not,
}
use libpolycall_v.Parser.{AstNode, Ast, AstType, node_at, change, ast_code, zero_node}
use libpolycall_v.Token.{Value}

-- `polycall_ast_create_node`; the new node lies behind the others.
unfoldable pub create_node : Bool → List AstNode → AstType → Option Value → List AstNode × Option ℕ
create_node alloc memory type none =
    if alloc
    then (memory ++ record zero_node { type = type } ∷ [], some (length memory))
    else (memory, none)
create_node alloc memory type (some value) =
    if alloc
    then (memory ++ record zero_node { type = type; value = value } ∷ [], some (length memory))
    else (memory, none)

abbrev pub with_child : List AstNode → ℕ → ℕ → List AstNode
with_child memory parent child =
    let p = node_at memory parent in
    let one = change memory parent (record p { children = p.children ++ child ∷ [] }) in
    change one child (record (node_at one child) { parent = some parent })

-- `polycall_ast_add_child`.
unfoldable pub add_child : Bool → List AstNode → Option ℕ → Option ℕ → List AstNode × Bool
add_child alloc memory (some parent) (some child) =
    if alloc then (with_child memory parent child, true) else (memory, false)
add_child alloc memory _ _ = (memory, false)

abbrev pub set_attributes : List AstNode → Option ℕ → ℕ → List AstNode
set_attributes memory none attrs = memory
set_attributes memory (some i) attrs = change memory i (record (node_at memory i) { attrs = attrs })

abbrev pub get_attributes : List AstNode → Option ℕ → ℕ
get_attributes memory none = 0
get_attributes memory (some i) = (node_at memory i).attrs

abbrev pub set_location : List AstNode → Option ℕ → ℕ → ℕ → List AstNode
set_location memory none line column = memory
set_location memory (some i) line column =
    change memory i (record (node_at memory i) { line = line; column = column })

abbrev pub get_location : List AstNode → Option ℕ → Option (ℕ × ℕ)
get_location memory none = none
get_location memory (some i) = some ((node_at memory i).line, (node_at memory i).column)

-- `polycall_ast_map`, whose transform gives a node or NULL.
abbrev pub ast_map : Option ℕ → Option (ℕ → Option ℕ) → Option ℕ
ast_map (some node) (some transform) = transform node
ast_map _ _ = none

abbrev pub node_list : Option (List ℕ) → List ℕ
node_list none = []
node_list (some nodes) = nodes

unfoldable pub kept : (ℕ → Bool) → List ℕ → List ℕ
kept predicate [] = []
kept predicate (i ∷ nodes) =
    let rest = kept predicate nodes in if predicate i then i ∷ rest else rest

-- `polycall_ast_filter` with a tree and a predicate, where calloc gives the new tree.
unfoldable pub ast_filter : Bool → Ast → (ℕ → Bool) → Ast
ast_filter alloc ast predicate = record {
  root = none;
  nodes = if alloc then some (kept predicate (node_list ast.nodes)) else none;
  capacity = length (node_list ast.nodes);
}

-- The transforms one after the other; a NULL transform is skipped, a NULL node ends them.
unfoldable pub transform_all : List (Option (ℕ → Option ℕ)) → ℕ → Option ℕ
transform_all [] node = some node
transform_all (none ∷ transforms) node = transform_all transforms node
transform_all (some transform ∷ transforms) node = elim (transform node) [
  | none ↦ none
  | some next ↦ transform_all transforms next
]

unfoldable pub transformed : List (Option (ℕ → Option ℕ)) → List ℕ → List ℕ
transformed transforms [] = []
transformed transforms (i ∷ nodes) =
    let rest = transformed transforms nodes in
    elim (transform_all transforms i) [ none ↦ rest | some next ↦ next ∷ rest ]

abbrev pub first_node : List ℕ → Option ℕ
first_node [] = none
first_node (i ∷ nodes) = some i

-- `polycall_ast_apply_transforms`, where memory is there.
unfoldable pub apply_transforms : Ast → List (Option (ℕ → Option ℕ)) → Ast
apply_transforms ast transforms =
    let nodes = transformed transforms (node_list ast.nodes) in
    record { root = first_node nodes; nodes = some nodes; capacity = length (node_list ast.nodes) }

abbrev pub has_type : List AstNode → AstType → ℕ → Bool
has_type memory type i = ast_code (node_at memory i).type == ast_code type

unfoldable pub first_of_type : List AstNode → AstType → List ℕ → Option ℕ
first_of_type memory type [] = none
first_of_type memory type (i ∷ nodes) =
    let rest = first_of_type memory type nodes in if has_type memory type i then some i else rest

-- `polycall_ast_find_node`.
abbrev pub find_node : List AstNode → Ast → AstType → Option ℕ
find_node memory ast type = first_of_type memory type (node_list ast.nodes)

-- The first pass of `polycall_ast_find_nodes`.
unfoldable pub count_type : List AstNode → AstType → List ℕ → ℕ → ℕ
count_type memory type [] count = count
count_type memory type (i ∷ nodes) count =
    count_type memory type nodes (if has_type memory type i then u32 (count + 1) else count)

-- The second pass: `room` more may be collected.
unfoldable pub collect_type : List AstNode → AstType → List ℕ → ℕ → List ℕ
collect_type memory type [] room = []
collect_type memory type (i ∷ nodes) zero = []
collect_type memory type (i ∷ nodes) (suc room) =
    let took = collect_type memory type nodes room in
    let passed = collect_type memory type nodes (suc room) in
    if has_type memory type i then i ∷ took else passed

abbrev pub found_nodes : Bool → List AstNode → AstType → List ℕ → ℕ → Option (List ℕ) × ℕ
found_nodes alloc memory type nodes count =
    if count == 0
    then (none, 0)
    else if not alloc
    then (none, 0)
    else (some (collect_type memory type nodes count), count)

-- `polycall_ast_find_nodes`: the array and `*count`; none for the count that a tree without an
-- array leaves as it was.
unfoldable pub find_nodes : Bool → List AstNode → Ast → AstType → Option (Option (List ℕ) × ℕ)
find_nodes alloc memory ast type = elim ast.nodes [
  | none ↦ none
  | some nodes ↦ some (found_nodes alloc memory type nodes (count_type memory type nodes 0))
]

unfoldable pub join_all : (ℕ → Option (List ℕ)) → List ℕ → Option (List ℕ)
join_all visit [] = some []
join_all visit (i ∷ nodes) = elim (visit i) [
  | none ↦ none
  | some one ↦ Option.map (one ++◌) (join_all visit nodes)
]

-- `polycall_ast_visit`: the nodes in the order of the visits, to a depth of `fuel`.
unfoldable pub visit : ℕ → List AstNode → ℕ → Option (List ℕ)
visit zero memory i = none
visit (suc fuel) memory i =
    Option.map (i ∷◌) (join_all (visit fuel memory) (node_at memory i).children)

abbrev pub is_child : List AstNode → ℕ → ℕ → Bool
is_child memory parent child = elim (node_at memory child).parent [
  | none ↦ false
  | some p ↦ p == parent
]

unfoldable pub all_of : (ℕ → Bool) → List ℕ → Bool
all_of test [] = true
all_of test (i ∷ nodes) = test i && all_of test nodes

-- `validate_node_structure` with `below` the depth that is left.
unfoldable pub validate_node_structure : List AstNode → ℕ → ℕ → Bool
validate_node_structure memory zero i = all_of (λ child. false) (node_at memory i).children
validate_node_structure memory (suc below) i =
    all_of (λ child. is_child memory i child && validate_node_structure memory below child)
      (node_at memory i).children

abbrev pub default_max_depth : ℕ
default_max_depth = 256

-- `polycall_ast_validate`; none when the visit goes deeper than `fuel`.
unfoldable pub ast_validate : ℕ → List AstNode → Ast → Option Bool
ast_validate fuel memory ast = elim ast.root [
  | none ↦ some false
  | some root ↦ elim (visit fuel memory root) [
    | none ↦ none
    | some visited ↦ some (
        u32 (length visited) == length (node_list ast.nodes)
        && validate_node_structure memory default_max_depth root)
  ]
]
