-- ===== src/Parser/Endless.antt =====
-- Token lists that the parser never comes to an end on.
use mathlib.Core.Option
use libpolycall_v.Token.{Token, identifier, eof}
use libpolycall_v.Prelude.{
  refl, none, some, false, zero, suc, [], ◌∷◌, List, ℕ, ◌≡◌, ◌<◌, leb, arith, ap,
}
use libpolycall_v.Parser.Parse.{
  expect_token, parse_function, program_loop, parse_tokens, ParserState, first_state, is_type,
  at_end, allocate_node, token_at, ParserConfig, tree_of,
}
use libpolycall_v.Parser.{zero_node, ast_program}

expect_token-other :
    (state : ParserState) (tokens : List Token)
    → is_type identifier state.current_token ≡ false
    → expect_token state tokens identifier ≡ (state, false)
unfolding expect_token
expect_token-other state tokens n = rw n refl

parse_function-other :
    (fuel : ℕ) (state : ParserState) (tokens : List Token)
    → is_type identifier state.current_token ≡ false
    → parse_function fuel state tokens ≡ some (state, none)
unfolding parse_function
parse_function-other fuel state tokens n = rw (expect_token-other state tokens n) refl

program_loop_endless :
    (fuel : ℕ) (state : ParserState) (tokens : List Token) (root : ℕ)
    → at_end state ≡ false
    → is_type identifier state.current_token ≡ false
    → program_loop fuel state tokens root ≡ none
unfolding program_loop
program_loop_endless zero state tokens root e n = refl
program_loop_endless (suc fuel) state tokens root e n =
    rw (e, parse_function-other fuel state tokens n)
      (program_loop_endless fuel state tokens root e n)

-- With room for the root, a list of tokens that begins with anything but an identifier or the
-- end of the text is never parsed to an end: no fuel is enough.
pub parse_tokens_endless :
    (fuel : ℕ) (config : ParserConfig) (token : Token) (tokens : List Token)
    → 0 < config.max_nodes
    → is_type identifier (some token) ≡ false
    → is_type eof (some token) ≡ false
    → parse_tokens fuel config (token ∷ tokens) ≡ none
unfolding parse_tokens first_state allocate_node token_at
parse_tokens_endless fuel config token tokens p n e =
    let state = first_state config (token ∷ tokens) in
    let room : leb config.max_nodes 0 ≡ false = ground (arith, p) in
    let next : ParserState = record state { pool = record zero_node { type = ast_program } ∷ [] } in
    rw room (
      ap (Option.map (tree_of (some 0)))
        (program_loop_endless fuel next (token ∷ tokens) 0 (ground (arith, e)) n))
