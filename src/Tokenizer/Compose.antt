-- ===== src/Tokenizer/Compose.antt =====
-- Creating a tokenizer, and its sets of operations.
use libpolycall_v.Tokenizer.{ready, Tokenizer, reset_state}
use libpolycall_v.Prelude.{
  refl, none, some, true, [], inl, inr, ◌∷◌, List, ℕ, Bool, if◌then◌else◌, Option, u32, ◌++◌, ◌≡◌,
  ◌/◌, Option-cases, or_else,
}
use libpolycall_v.Tokenizer.Process.{try_patterns, Operation}
use libpolycall_v.Token.{create_array}

-- The limits of a configuration that the code reads.
pub record Limits : Type 0 where
  pub buffer : ℕ
  pub token : ℕ

-- `POLYCALL_TOKENIZER_DEFAULT_CONFIG`.
abbrev pub default_limits : Limits
default_limits = record { buffer = 4096; token = 256 }

abbrev pub limits_or_default : Option Limits → Limits
limits_or_default none = default_limits
limits_or_default (some limits) = limits

-- `has_tokenizer` says whether calloc gives the tokenizer, `memory` are the bytes that malloc gives
-- for the buffer, and `has_tokens` says whether calloc gives the token array.
unfoldable pub tokenizer_create : Option Limits → Bool → Option (List ℕ) → Bool → Option Tokenizer
tokenizer_create config has_tokenizer none has_tokens = none
tokenizer_create config has_tokenizer (some memory) has_tokens =
    let limits = limits_or_default config in
    if has_tokenizer
    then elim (create_array has_tokens (u32 (limits.buffer / limits.token))) [
      | none ↦ none
      | some tokens ↦ some (
          reset_state (record {
            buffer = memory;
            size = limits.buffer;
            position = 0;
            line = 0;
            column = 0;
            current = ready;
            error_message = none;
            error_count = 0;
            tokens = tokens;
          }))
    ]
    else none

-- `polycall_tokenizer_create_ops`, on arrays that may be NULL.
unfoldable pub create_ops : Bool → Option (List Operation) → Option (List Operation)
create_ops alloc none = none
create_ops alloc (some []) = none
create_ops alloc (some (op ∷ ops)) = if alloc then some (op ∷ ops) else none

-- `polycall_tokenizer_compose_ops`.
unfoldable pub compose_ops :
    Bool → Option (List Operation) → Option (List Operation) → Option (List Operation)
compose_ops alloc (some ops1) (some ops2) = if alloc then some (ops1 ++ ops2) else none
compose_ops alloc _ _ = none

try_patterns-append :
    (strtod strtoll : List ℕ → ℕ) (tokenizer : Tokenizer) (ops1 ops2 : List Operation) (s : List ℕ)
    → try_patterns strtod strtoll tokenizer (ops1 ++ ops2) s
      ≡ or_else
          (try_patterns strtod strtoll tokenizer ops1 s)
          (try_patterns strtod strtoll tokenizer ops2 s)
unfolding try_patterns
try_patterns-append strtod strtoll tokenizer [] ops2 s = refl
try_patterns-append strtod strtoll tokenizer (op ∷ ops1) ops2 s = elim (Option-cases (op.match s)) [
  | inl e ↦ rw e (try_patterns-append strtod strtoll tokenizer ops1 ops2 s)
  | inr (n, e) ↦ rw e refl
]

-- Where memory is there, two sets of operations compose to one that tries the patterns of the
-- first set before those of the second.
pub try_patterns-compose_ops :
    (strtod strtoll : List ℕ → ℕ) (tokenizer : Tokenizer) (ops1 ops2 : List Operation) (s : List ℕ)
    → (ops : List Operation) × (compose_ops true (some ops1) (some ops2) ≡ some ops)
      × (try_patterns strtod strtoll tokenizer ops s
          ≡ or_else
              (try_patterns strtod strtoll tokenizer ops1 s)
              (try_patterns strtod strtoll tokenizer ops2 s))
unfolding compose_ops
try_patterns-compose_ops strtod strtoll tokenizer ops1 ops2 s =
    (ops1 ++ ops2, refl, try_patterns-append strtod strtoll tokenizer ops1 ops2 s)
