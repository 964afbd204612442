-- ===== src/Token/Filtered.antt =====
-- Filtering and chaining compute the filter and the map of the tokens, and never outgrow the array
-- they start with.
use libpolycall_v.Prelude.{
  none, ap, if◌then◌else◌, refl, some, true, [], inl, inr, ◌∷◌, List, Bool, length, ◌≤◌, ◌+◌, ◌≡◌,
  ◌++◌, ◌<◌, Bool-cases, arith, Option, length-append, map, ◌∙◌, ◌==◌,
}
use mathlib.Core.List.{append-nil, append_assoc}
use libpolycall_v.Token.{
  TokenArray, filter_from, push, Token, chain_from, token_filter, token_chain, create_array,
  apply_ops,
}
use libpolycall_v.Micro.Filter.{keep}

-- A token array within its capacity.
pub record IsFitting (array : TokenArray) : Type 0 where
  pub within : length array.tokens ≤ array.capacity

-- An array that is not full takes a token without growing.
push_lem :
    (grows : Bool) (result : TokenArray) (token : Token)
    → length result.tokens < result.capacity
    → push grows result token ≡ some (record result { tokens = result.tokens ++ token ∷ [] })
unfolding push
push_lem grows result token h = ground (arith, h)

-- Filtering keeps the order, and has room for what is left.
filter_from_lem :
    (grows : Bool) (pred : Token → Bool) (tokens : List Token) (result : TokenArray)
    → length result.tokens + length tokens ≤ result.capacity
    → filter_from grows pred tokens result
      ≡ some (record result { tokens = result.tokens ++ keep pred tokens })
unfolding filter_from keep
filter_from_lem grows pred [] result h = rw (append-nil result.tokens) refl
filter_from_lem grows pred (token ∷ tokens) result h = elim (Bool-cases (pred token)) [
  | inl e ↦
      rw (filter_from, e, push_lem grows result token (omega (arith, h)))
        (filter_from_lem grows pred tokens (record result { tokens = result.tokens ++ token ∷ [] })
            (omega (arith, h, length-append result.tokens (token ∷ [])))
          ∙ rw (append_assoc result.tokens (token ∷ []) (keep pred tokens)) refl)
  | inr e ↦ rw (filter_from, e) (filter_from_lem grows pred tokens result (omega (arith, h)))
]

-- The operations that are there, and their composition.
abbrev pub present : List (Option (Token → Token)) → List (Token → Token)
present [] = []
present (none ∷ ops) = present ops
present (some op ∷ ops) = op ∷ present ops

abbrev pub composition : List (Token → Token) → Token → Token
composition [] = λ token. token
composition (op ∷ ops) = λ token. composition ops (op token)

apply_ops_lem :
    (ops : List (Option (Token → Token))) (token : Token)
    → apply_ops ops token ≡ composition (present ops) token
unfolding apply_ops
apply_ops_lem [] token = refl
apply_ops_lem (none ∷ ops) token = apply_ops_lem ops token
apply_ops_lem (some op ∷ ops) token = apply_ops_lem ops (op token)

map-apply_ops :
    (ops : List (Option (Token → Token))) (tokens : List Token)
    → map (apply_ops ops) tokens ≡ map (composition (present ops)) tokens
map-apply_ops ops [] = refl
map-apply_ops ops (token ∷ tokens) =
    ap (λ t. t ∷ map (apply_ops ops) tokens) (apply_ops_lem ops token)
    ∙ ap (composition (present ops) token ∷◌) (map-apply_ops ops tokens)

chain_from_lem :
    (grows : Bool) (ops : List (Option (Token → Token))) (tokens : List Token) (result : TokenArray)
    → length result.tokens + length tokens ≤ result.capacity
    → chain_from grows ops tokens result
      ≡ some (record result { tokens = result.tokens ++ map (apply_ops ops) tokens })
unfolding chain_from
chain_from_lem grows ops [] result h = rw (append-nil result.tokens) refl
chain_from_lem grows ops (token ∷ tokens) result h =
    rw (chain_from, push_lem grows result (apply_ops ops token) (omega (arith, h)))
      (chain_from_lem grows ops tokens
          (record result { tokens = result.tokens ++ apply_ops ops token ∷ [] })
          (omega (arith, h, length-append result.tokens (apply_ops ops token ∷ [])))
        ∙ rw (append_assoc result.tokens (apply_ops ops token ∷ []) (map (apply_ops ops) tokens))
            refl)

-- The array that filtering and chaining start from, with the tokens that they end with.
abbrev pub with_tokens : TokenArray → List Token → TokenArray
with_tokens array tokens = record {
  tokens = tokens;
  capacity = if array.capacity == 0 then 16 else array.capacity;
  error_count = 0;
  line = 1;
  column = 1;
}

-- Filtering an array that is within its capacity gives the tokens that satisfy the predicate,
-- in their order, where calloc returns memory; the result never has to grow, whatever realloc
-- answers.
pub token_filter_lem :
    (grows : Bool) (array : TokenArray) (pred : Token → Bool)
    → IsFitting array
    → token_filter true grows (some array) (some pred)
      ≡ some (with_tokens array (keep pred array.tokens))
unfolding token_filter create_array
token_filter_lem grows array pred f =
    filter_from_lem grows pred array.tokens (with_tokens array []) (ground (arith, f.within))

-- Chaining operations over an array that is within its capacity maps their composition, the
-- first of them applied first and NULL operations left out, over its tokens, where there is an
-- operation and calloc returns memory; the result never has to grow.
pub token_chain_lem :
    (grows : Bool) (array : TokenArray) (op : Option (Token → Token))
    (ops : List (Option (Token → Token)))
    → IsFitting array
    → token_chain true grows (some array) (some (op ∷ ops))
      ≡ some (with_tokens array (map (composition (present (op ∷ ops))) array.tokens))
unfolding token_chain create_array
token_chain_lem grows array op ops f =
    chain_from_lem grows (op ∷ ops) array.tokens (with_tokens array []) (ground (arith, f.within))
    ∙ ap (λ tokens. some (with_tokens array tokens)) (map-apply_ops (op ∷ ops) array.tokens)
