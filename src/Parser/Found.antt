-- ===== src/Parser/Found.antt =====
-- The nodes of a type, found in two passes.
use libpolycall_v.Prelude.{
  refl, none, some, true, false, zero, suc, [], inl, inr, ◌∷◌, List, ℕ, Option, ◌≡◌, length, ◌+◌,
  ◌<◌, ◌≤◌, ◌^◌, arith, Bool-cases, u32, ◌∙◌, ap, ◌==◌,
}
use libpolycall_v.Parser.{AstNode, AstType, Ast}
use libpolycall_v.Parser.Tree.{find_nodes, kept, count_type, collect_type, has_type, found_nodes}

none_left : (nodes : List ℕ) → length nodes ≤ 0 → [] ≡ nodes
none_left [] h = refl
none_left (i ∷ nodes) h = absurd (omega (arith, h))

module _ (memory : List AstNode) (type : AstType) where
  length-kept : (nodes : List ℕ) → length (kept (has_type memory type) nodes) ≤ length nodes
  unfolding kept
  length-kept [] = omega arith
  length-kept (i ∷ nodes) =
      let ih = length-kept nodes in
      elim (Bool-cases (has_type memory type i)) [
        | inl t ↦ rw t (omega (arith, ih))
        | inr t ↦ rw t (omega (arith, ih))
      ]

  count_type_lem :
      (nodes : List ℕ) (count : ℕ)
      → count + length nodes < 2 ^ 32
      → count_type memory type nodes count ≡ count + length (kept (has_type memory type) nodes)
  unfolding count_type kept
  count_type_lem [] count h = omega arith
  count_type_lem (i ∷ nodes) count h = elim (Bool-cases (has_type memory type i)) [
    | inl t ↦
        let u : u32 (count + 1) ≡ count + 1 = omega (arith, h) in
        rw (t, u) (count_type_lem nodes (count + 1) (omega (arith, h)) ∙ omega arith)
    | inr t ↦ rw t (count_type_lem nodes count (omega (arith, h)))
  ]

  collect_type_lem :
      (nodes : List ℕ) (room : ℕ)
      → length (kept (has_type memory type) nodes) ≤ room
      → collect_type memory type nodes room ≡ kept (has_type memory type) nodes
  unfolding collect_type kept
  collect_type_lem [] room h = refl
  collect_type_lem (i ∷ nodes) zero h = elim (Bool-cases (has_type memory type i)) [
    | inl t ↦ absurd (omega (arith, rw t at h))
    | inr t ↦ rw t (none_left (kept (has_type memory type) nodes) (rw t at h))
  ]
  collect_type_lem (i ∷ nodes) (suc room) h = elim (Bool-cases (has_type memory type i)) [
    | inl t ↦
        let k : length (kept (has_type memory type) nodes) < suc room = omega (arith, rw t at h) in
        rw t (ap (i ∷◌) (collect_type_lem nodes room (omega (arith, k))))
    | inr t ↦ rw t (collect_type_lem nodes (suc room) (rw t at h))
  ]

abbrev pub array_of : List ℕ → Option (List ℕ)
array_of [] = none
array_of (i ∷ nodes) = some (i ∷ nodes)

found_nodes_lem :
    (memory : List AstNode) (type : AstType) (nodes found : List ℕ)
    → collect_type memory type nodes (length found) ≡ found
    → found_nodes true memory type nodes (length found) ≡ (array_of found, length found)
found_nodes_lem memory type nodes [] e = refl
found_nodes_lem memory type nodes (i ∷ found) e =
    let n : (length (i ∷ found) == 0) ≡ false = ground arith in rw (n, e) refl

-- Where memory is there, the two passes over an array of fewer than 2 ^ 32 nodes find exactly
-- the nodes of the type, in their order, and their number; NULL when there is none.
pub find_nodes_lem :
    (memory : List AstNode) (ast : Ast) (nodes : List ℕ) (type : AstType)
    → ast.nodes ≡ some nodes
    → length nodes < 2 ^ 32
    → find_nodes true memory ast type
      ≡ some
          (array_of (kept (has_type memory type) nodes), length (kept (has_type memory type) nodes))
unfolding find_nodes
find_nodes_lem memory ast nodes type e h =
    let found = kept (has_type memory type) nodes in
    let c : count_type memory type nodes 0 ≡ length found =
      count_type_lem memory type nodes 0 (omega (arith, h)) ∙ omega arith in
    let d = collect_type_lem memory type nodes (length found) (omega arith) in
    rw (e, c) (ap some (found_nodes_lem memory type nodes found d))
