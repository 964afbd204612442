-- ===== src/Tokenizer/Tests.antt =====
-- Runs of the tokenizer, and the theorems at them.
use mathlib.Core.Option
use libpolycall_v.Token.{TokenArray, identifier, text, operator}
use libpolycall_v.Tokenizer.{ready, Tokenizer, set_input, reset_state}
use libpolycall_v.Prelude.{
  refl, none, some, true, [], ◌∷◌, List, ℕ, Bool, replicate, ◌≡◌, codes, ◌++◌, length, arith, ◌+◌,
}
use libpolycall_v.Tokenizer.Process.{
  Operation, tokenizer_process, try_patterns, scan, create_token, add_token,
}
use libpolycall_v.Tokenizer.Short.{
  AllPatterns, tokenizer_process_ends, IsRefused, tokenizer_process_short,
}
use libpolycall_v.Tokenizer.Match.{
  match_string, match_identifier, match_operator, count_while, first_operator, starts_with,
}
use libpolycall_v.Tokenizer.Prefixes.{
  match_identifier-IsPattern, match_string-IsPattern, match_operator-IsPattern,
}
use libpolycall_v.Tokenizer.Quoted.{escape, match_string-escape}

abbrev names : Operation
names = record {
  match = match_identifier;
  produces = identifier;
  accepts = identifier;
  consume = λ token. token;
}

abbrev strings : Operation
strings = record { match = match_string; produces = text; accepts = text; consume = λ token. token }

abbrev signs : Operation
signs = record {
  match = match_operator;
  produces = operator;
  accepts = operator;
  consume = λ token. token;
}

abbrev no_tokens : TokenArray
no_tokens = record { tokens = []; capacity = 4; error_count = 0; line = 1; column = 1 }

abbrev small : Tokenizer
small = record {
  buffer = replicate 6 0;
  size = 6;
  position = 0;
  line = 1;
  column = 1;
  current = ready;
  error_message = none;
  error_count = 0;
  tokens = no_tokens;
}

abbrev reads_zero : List ℕ → ℕ
reads_zero s = 0

all_three : AllPatterns (names ∷ strings ∷ signs ∷ [])
all_three = (match_identifier-IsPattern, (match_string-IsPattern, (match_operator-IsPattern, tt)))

tokenizer_process_ends_example :
    (r : Tokenizer × Bool) × (tokenizer_process reads_zero reads_zero small
        (names ∷ strings ∷ signs ∷ [])
      ≡ some r)
tokenizer_process_ends_example =
    tokenizer_process_ends reads_zero reads_zero small (names ∷ strings ∷ signs ∷ []) all_three

tokenizer_process_short_example :
    ((set_input small (some (codes "a+b"))).1 ≡ true)
    × IsRefused (
        tokenizer_process reads_zero reads_zero
          (set_input small (some (codes "a+b"))).0
          (names ∷ strings ∷ signs ∷ []))
tokenizer_process_short_example =
    tokenizer_process_short reads_zero reads_zero small (names ∷ strings ∷ signs ∷ []) (codes "a+b")
      all_three refl (omega arith) (omega arith)

match_string-escape_example :
    match_string (b'"' ∷ escape (codes "a\"b") ++ b'"' ∷ codes " x")
    ≡ some (length (escape (codes "a\"b")) + 2)
match_string-escape_example =
    match_string-escape (codes "a\"b") (codes " x") (omega arith, (omega arith, (omega arith, tt)))

-- A text that fills the buffer is scanned: three tokens and the end.
abbrev full : Tokenizer
full = record small { size = 3; buffer = replicate 3 0 }

abbrev outcome : Tokenizer × Bool → Bool × ℕ
outcome r = (r.1, length r.0.tokens.tokens)

full_scans :
    Option.map outcome (
      tokenizer_process reads_zero reads_zero
        (set_input full (some (codes "a+b"))).0
        (names ∷ strings ∷ signs ∷ []))
    ≡ some (true, 4)
unfolding tokenizer_process scan set_input reset_state try_patterns match_identifier count_while
    match_string match_operator first_operator starts_with create_token add_token
full_scans = refl
