-- ===== src/Token/Tests.antt =====
-- Runs of the token functions, and the theorems at them.
use libpolycall_v.Token.{Token, TokenArray, int_value, number, token_filter, token_chain}
use libpolycall_v.Token.Values.{Pointed}
use libpolycall_v.Prelude.{none, some, true, false, suc, [], ◌∷◌, ℕ, Bool, ltb, ◌≡◌, map, arith}
use libpolycall_v.Token.Filtered.{
  with_tokens, token_filter_lem, token_chain_lem, composition, present,
}
use libpolycall_v.Micro.Filter.{keep}

abbrev a_token : ℕ → Token
a_token n = record {
  value = int_value n;
  type = number;
  flags = 0;
  line = 1;
  column = n;
  length = 1;
}

abbrev two_tokens : TokenArray
two_tokens = record {
  tokens = a_token 1 ∷ a_token 9 ∷ [];
  capacity = 2;
  error_count = 0;
  line = 1;
  column = 1;
}

abbrev late : Token → Bool
late token = ltb 4 token.column

abbrev moved : Token → Token
moved token = record token { line = suc token.line }

token_filter_lem_example :
    token_filter true false (some two_tokens) (some late)
    ≡ some (with_tokens two_tokens (keep late two_tokens.tokens))
token_filter_lem_example = token_filter_lem false two_tokens late (record { within = omega arith })

token_chain_lem_example :
    token_chain true false (some two_tokens) (some (some moved ∷ none ∷ []))
    ≡ some (
        with_tokens two_tokens
          (map (composition (present (some moved ∷ none ∷ []))) two_tokens.tokens))
token_chain_lem_example =
    token_chain_lem false two_tokens (some moved) (none ∷ []) (record { within = omega arith })

abbrev here : Pointed
here = record { as_int = 5; as_float = 0; as_chars = 104 ∷ 105 ∷ [] }

abbrev there : Pointed
there = record { as_int = 6; as_float = 0; as_chars = 104 ∷ 105 ∷ [] }
