-- ===== src/Tokenizer/Match.antt =====
-- The pattern matchers: the length of the match at the start of the text, if there is one.
use mathlib.Core.Option
use libpolycall_v.Prelude.{
  none, some, true, false, suc, [], ◌∷◌, List, ℕ, Bool, if◌then◌else◌, ◌||◌, ◌==◌, Option, codes,
  ◌&&◌, get_or, not, length, ◌+◌, ltb, drop, is_alpha, is_digit,
}

abbrev pub is_identifier_start : ℕ → Bool
is_identifier_start c = is_alpha c || c == b'_'

abbrev pub is_identifier_part : ℕ → Bool
is_identifier_part c = is_alpha c || is_digit c || c == b'_'

-- `while (p(input[pos])) pos++`.
unfoldable pub count_while : (ℕ → Bool) → List ℕ → ℕ
count_while p [] = 0
count_while p (c ∷ s) = let rest = count_while p s in if p c then suc rest else 0

unfoldable pub match_identifier : List ℕ → Option ℕ
match_identifier [] = none
match_identifier (c ∷ s) =
    if is_identifier_start c then some (suc (count_while is_identifier_part s)) else none

abbrev pub is_sign : ℕ → Bool
is_sign c = c == b'+' || c == b'-'

-- The digits from `pos` on, of which there has to be one.
abbrev pub match_digits : List ℕ → ℕ → Option ℕ
match_digits s pos =
    if is_digit (get_or s pos 0) then some (pos + count_while is_digit (drop pos s)) else none

abbrev pub match_fraction : List ℕ → ℕ → Option ℕ
match_fraction s pos = if get_or s pos 0 == b'.' then match_digits s (pos + 1) else some pos

abbrev pub match_exponent : List ℕ → ℕ → Option ℕ
match_exponent s pos =
    if (get_or s pos 0 == b'e' || get_or s pos 0 == b'E') && ltb 0 pos
    then match_digits s (if is_sign (get_or s (pos + 1) 0) then pos + 2 else pos + 1)
    else some pos

unfoldable pub match_number : List ℕ → Option ℕ
match_number s = elim (match_digits s (if is_sign (get_or s 0 0) then 1 else 0)) [
  | none ↦ none
  | some pos ↦ elim (match_fraction s pos) [ none ↦ none | some after ↦ match_exponent s after ]
]

-- The rest of a string after its opening quote, up to the closing one.
unfoldable pub scan_string : Bool → List ℕ → Option ℕ
scan_string escaped [] = none
scan_string escaped (c ∷ s) =
    let rest = scan_string (not escaped && c == b'\\') s in
    if c == 0 then none else if not escaped && c == b'"' then some 1 else Option.map suc rest

unfoldable pub match_string : List ℕ → Option ℕ
match_string [] = none
match_string (c ∷ s) = if c == b'"' then Option.map suc (scan_string false s) else none

-- The operators, in the order in which they are tried.
abbrev pub operators : List (List ℕ)
operators =
    codes "++"
    ∷ codes "--"
    ∷ codes "+="
    ∷ codes "-="
    ∷ codes "*="
    ∷ codes "/="
    ∷ codes "=="
    ∷ codes "!="
    ∷ codes ">="
    ∷ codes "<="
    ∷ codes "&&"
    ∷ codes "||"
    ∷ codes "+"
    ∷ codes "-"
    ∷ codes "*"
    ∷ codes "/"
    ∷ codes "%"
    ∷ codes "="
    ∷ codes "<"
    ∷ codes ">"
    ∷ codes "!"
    ∷ codes "&"
    ∷ codes "|"
    ∷ []

-- `strncmp(input, op, strlen(op)) == 0`.
unfoldable pub starts_with : List ℕ → List ℕ → Bool
starts_with s [] = true
starts_with [] (o ∷ op) = false
starts_with (c ∷ s) (o ∷ op) = c == o && starts_with s op

unfoldable pub first_operator : List (List ℕ) → List ℕ → Option ℕ
first_operator [] s = none
first_operator (op ∷ ops) s =
    let rest = first_operator ops s in if starts_with s op then some (length op) else rest

unfoldable pub match_operator : List ℕ → Option ℕ
match_operator s = first_operator operators s
