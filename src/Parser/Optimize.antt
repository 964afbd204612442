-- ===== src/Parser/Optimize.antt =====
-- The optimisation of a tree, on fuel for its depth. What is freed stays in the memory, and
-- nothing points to it.
use mathlib.Core.Option
use libpolycall_v.Prelude.{
  none, some, zero, suc, [], ◌∷◌, List, ℕ, if◌then◌else◌, Option, ◌==◌, ◌&&◌, ◌++◌, length,
}
use libpolycall_v.Parser.{ast_block, AstNode, Ast, change, node_at, zero_node}
use libpolycall_v.Parser.Tree.{visit, has_type}

abbrev only_child : List ℕ → Option ℕ
only_child (child ∷ []) = some child
only_child _ = none

-- At the first level a block with one child gives way to the child.
abbrev pub replaced_by : List AstNode → ℕ → ℕ → Option ℕ
replaced_by memory level i =
    if level == 1 && has_type memory ast_block i
    then only_child (node_at memory i).children
    else none

unfoldable pub optimize_children :
    (List AstNode → ℕ → Option (List AstNode × ℕ))
    → List AstNode
    → List ℕ
    → Option (List AstNode × List ℕ)
optimize_children optimize memory [] = some (memory, [])
optimize_children optimize memory (c ∷ children) = elim (optimize memory c) [
  | none ↦ none
  | some (next, d) ↦ Option.map (λ r. (r.0, d ∷ r.1)) (optimize_children optimize next children)
]

abbrev with_children : ℕ → List AstNode × List ℕ → List AstNode × ℕ
with_children i (memory, children) =
    (change memory i (record (node_at memory i) { children = children }), i)

unfoldable pub optimize_node : ℕ → List AstNode → ℕ → ℕ → Option (List AstNode × ℕ)
optimize_node zero memory level i = none
optimize_node (suc fuel) memory level i = elim (replaced_by memory level i) [
  | some child ↦ optimize_node fuel memory level child
  | none ↦
      Option.map (with_children i)
        (optimize_children (λ m c. optimize_node fuel m level c) memory (node_at memory i).children)
]

abbrev optimized_tree : ℕ → ℕ → List AstNode × ℕ → Option (List AstNode × Option Ast)
optimized_tree fuel capacity (memory, root) =
    Option.map
      (λ nodes.
        (memory, some (record { root = some root; nodes = some nodes; capacity = capacity })))
      (visit fuel memory root)

-- `polycall_ast_optimize`, where calloc gives memory. Its new root has no children.
unfoldable pub ast_optimize : ℕ → List AstNode → Ast → ℕ → Option (List AstNode × Option Ast)
ast_optimize fuel memory ast level = elim ast.root [
  | none ↦ some (memory, none)
  | some root ↦
      let old = node_at memory root in
      let copy = memory ++ record zero_node { type = old.type; value = old.value } ∷ [] in
      elim (optimize_node fuel copy level (length memory)) [
        | none ↦ none
        | some result ↦ optimized_tree fuel ast.capacity result
      ]
]

-- `polycall_ast_create_transforms`, where calloc gives memory.
unfoldable pub create_transforms :
    Option (List (Option (ℕ → Option ℕ))) → Option (List (Option (ℕ → Option ℕ)))
create_transforms none = none
create_transforms (some []) = none
create_transforms (some (transform ∷ transforms)) = some (transform ∷ transforms)
