-- ===== src/Config/Text.antt =====
-- Trimming, comparing texts, and the numbers and port mappings in them.
use libpolycall_v.Prelude.{
  none, some, true, false, [], ◌∷◌, List, ℕ, Bool, if◌then◌else◌, ◌==◌, ◌||◌, is_space, drop_while,
  Option, ◌&&◌, take_while, not, ltb, is_some, leb, is_digit, length, number_from, ◌-◌, ◌%◌,
}

-- `strcmp(a, b) == 0`.
unfoldable pub same_text : List ℕ → List ℕ → Bool
same_text [] [] = true
same_text [] (b ∷ t) = false
same_text (a ∷ s) [] = false
same_text (a ∷ s) (b ∷ t) = a == b && same_text s t

unfoldable pub string_in_list : List ℕ → List (List ℕ) → Bool
string_in_list value [] = false
string_in_list value (x ∷ values) = same_text value x || string_in_list value values

abbrev keep_end : ℕ → List ℕ → List ℕ
keep_end c [] = if is_space c then [] else c ∷ []
keep_end c (d ∷ s) = c ∷ d ∷ s

unfoldable pub trim_end : List ℕ → List ℕ
trim_end [] = []
trim_end (c ∷ s) = keep_end c (trim_end s)

unfoldable pub trim : List ℕ → List ℕ
trim s = trim_end (drop_while is_space s)

-- The text before the first `c`, and the text behind it if there is one: `strchr` and a NUL in
-- its place.
unfoldable pub cut : ℕ → List ℕ → List ℕ × Option (List ℕ)
cut c [] = ([], none)
cut c (d ∷ s) = let rest = cut c s in if d == c then ([], some s) else (d ∷ rest.0, rest.1)

-- What `strtoul` reads in base 10: the number, the text behind it, and whether it overflows 64
-- bits; `none` when there is no digit.
unfoldable pub unsigned_digits : Bool → List ℕ → Option (ℕ × List ℕ × Bool)
unsigned_digits negative s =
    let digits = take_while is_digit s in
    let n = number_from 0 digits in
    if length digits == 0
    then none
    else some (
      if negative then (18446744073709551616 - n) % 18446744073709551616 else n,
      drop_while is_digit s,
      leb 18446744073709551616 n,
    )

abbrev pub after_sign : List ℕ → Option (ℕ × List ℕ × Bool)
after_sign [] = none
after_sign (c ∷ s) =
    if c == b'-'
    then unsigned_digits true s
    else if c == b'+'
    then unsigned_digits false s
    else unsigned_digits false (c ∷ s)

unfoldable pub strtoul : List ℕ → Option (ℕ × List ℕ × Bool)
strtoul s = after_sign (drop_while is_space s)

abbrev pub accepted : Option (ℕ × List ℕ × Bool) → Option ℕ
accepted none = none
accepted (some (parsed, rest, overflow)) =
    if overflow || not (length rest == 0) || parsed == 0 then none else some parsed

-- The number through the out pointer, if the function answers true.
unfoldable pub parse_positive_integer : List ℕ → Option ℕ
parse_positive_integer [] = none
parse_positive_integer (c ∷ s) = if c == b'-' then none else accepted (strtoul (c ∷ s))

abbrev pub both_ports : Option ℕ → Option ℕ → Option (ℕ × ℕ)
both_ports (some host) (some target) =
    if ltb 65535 host || ltb 65535 target then none else some (host, target)
both_ports _ _ = none

abbrev pub mapping_parts : List ℕ → Option (List ℕ) → Option (ℕ × ℕ)
mapping_parts host none = none
mapping_parts host (some target) =
    if is_some (cut b':' target).1
    then none
    else both_ports (parse_positive_integer host) (parse_positive_integer target)

unfoldable pub parse_port_mapping : List ℕ → Option (ℕ × ℕ)
parse_port_mapping value =
    if leb 64 (length value)
    then none
    else let parts = cut b':' value in mapping_parts parts.0 parts.1
