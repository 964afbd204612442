-- ===== src/Config/Lines.antt =====
-- Reading a file: its lines as `fgets` delivers them, and what each line does.
use libpolycall_v.Config.{
  project, done, refused, PolycallConfig, ConfigLayer, Outcome, Complaint, line_size,
  server_in_runtime, network_syntax, server_syntax, malformed_syntax, too_many_values,
  malformed_entry, line_too_long, key_size, value_size,
}
use libpolycall_v.Prelude.{
  none, some, true, false, [], ◌∷◌, List, ℕ, Bool, if◌then◌else◌, ◌==◌, not, drop_while, Option,
  codes, text_of, u32, ◌||◌, ◌-◌, ◌&&◌, is_space, length, ◌+◌, is_some, leb, ltb, take, take_while,
  drop,
}
use libpolycall_v.Config.Store.{is_known_key, config_set, add_server, validate_value}
use libpolycall_v.Config.Text.{trim, same_text, cut}

abbrev pub prepend : ℕ → List (List ℕ) → List (List ℕ)
prepend c [] = (c ∷ []) ∷ []
prepend c (l ∷ ls) = (c ∷ l) ∷ ls

-- The successive results of `fgets`, each up to a newline or to `full` characters; the current one
-- has place for `room` more.
unfoldable pub chunks : ℕ → ℕ → List ℕ → List (List ℕ)
chunks full room [] = []
chunks full room (c ∷ s) =
    let ends = c == 10 || leb room 1 in
    let rest = chunks full (if ends then full else room - 1) s in
    if ends then (c ∷ []) ∷ rest else prepend c rest

abbrev pub raw_lines : List ℕ → List (List ℕ)
raw_lines file = chunks (line_size - 1) (line_size - 1) file

unfoldable pub has_char : ℕ → List ℕ → Bool
has_char c [] = false
has_char c (d ∷ s) = d == c || has_char c s

-- `feof` after the read: it met the end of the file.
abbrev pub met_end : List ℕ → Bool
met_end raw = not (has_char 10 raw) && ltb (length raw) (line_size - 1)

-- A conversion `%ns` after the spaces before it: the word, and what follows it.
unfoldable pub scan_word : ℕ → List ℕ → List ℕ × List ℕ
scan_word n s =
    let t = drop_while is_space s in
    let word = take n (take_while (λ c. not (is_space c)) t) in (word, drop (length word) t)

-- `sscanf` of exactly two words, the first of at most 31 characters and the second of at most 63.
unfoldable pub scan_server : List ℕ → Option (List ℕ × List ℕ)
scan_server s =
    let first = scan_word 31 s in
    let second = scan_word 63 first.1 in
    let extra = scan_word 1 second.1 in
    if length first.0 == 0 || length second.0 == 0 || not (length extra.0 == 0)
    then none
    else some (first.0, second.0)

-- `sscanf` of exactly one word of at most 15 characters.
unfoldable pub scan_network : List ℕ → Option (List ℕ)
scan_network s =
    let first = scan_word 15 s in
    let extra = scan_word 1 first.1 in
    if length first.0 == 0 || not (length extra.0 == 0) then none else some first.0

-- The text behind a keyword and a space, if the line begins so.
unfoldable pub after_keyword : List ℕ → List ℕ → Option (List ℕ)
after_keyword [] [] = none
after_keyword [] (c ∷ s) = if is_space c then some (c ∷ s) else none
after_keyword (k ∷ ks) [] = none
after_keyword (k ∷ ks) (c ∷ s) = if c == k then after_keyword ks s else none

abbrev pub server_words : PolycallConfig → Option (List ℕ × List ℕ) → Outcome PolycallConfig
server_words config none = refused server_syntax
server_words config (some (name, mapping)) = add_server config name mapping

unfoldable pub server_line : ConfigLayer → PolycallConfig → List ℕ → Outcome PolycallConfig
server_line project config s = server_words config (scan_server s)
server_line _ config s = refused server_in_runtime

abbrev pub network_word : PolycallConfig → Option (List ℕ) → Outcome PolycallConfig
network_word config none = refused network_syntax
network_word config (some action) =
    if same_text action (codes "start") || same_text action (codes "stop")
    then done
        (record config { network_enabled = same_text action (codes "start"); network_seen = true })
    else refused network_syntax

unfoldable pub network_line : ConfigLayer → PolycallConfig → List ℕ → Outcome PolycallConfig
network_line project config s = network_word config (scan_network s)
network_line _ config s = refused network_syntax

-- An unknown key is only counted.
abbrev pub warned : ConfigLayer → List ℕ → PolycallConfig → PolycallConfig
warned layer key config = record config {
  warnings = if is_known_key key layer then config.warnings else u32 (config.warnings + 1);
}

abbrev pub set_outcome : Option PolycallConfig → Outcome PolycallConfig
set_outcome none = refused too_many_values
set_outcome (some next) = done next

abbrev pub checked_entry :
    PolycallConfig → List ℕ → List ℕ → Option Complaint → Outcome PolycallConfig
checked_entry config key value (some complaint) = refused complaint
checked_entry config key value none = set_outcome (config_set config key value)

-- The key before the `=`, and the value behind it, both trimmed.
unfoldable pub entry_line : ConfigLayer → PolycallConfig → List ℕ → List ℕ → Outcome PolycallConfig
entry_line layer config before behind =
    let key = trim before in
    let value = trim behind in
    if is_some (cut b'=' behind).1
    then refused malformed_entry
    else if length key == 0
        || length value == 0
        || leb key_size (length key)
        || leb value_size (length value)
    then refused malformed_entry
    else checked_entry (warned layer key config) key value (validate_value key value)

abbrev pub other_line :
    ConfigLayer → PolycallConfig → List ℕ × Option (List ℕ) → Outcome PolycallConfig
other_line layer config (before, none) = refused malformed_syntax
other_line layer config (before, some behind) = entry_line layer config before behind

abbrev pub keyed_line :
    ConfigLayer
    → PolycallConfig
    → List ℕ
    → Option (List ℕ)
    → Option (List ℕ)
    → Outcome PolycallConfig
keyed_line layer config line (some s) _ = server_line layer config s
keyed_line layer config line none (some s) = network_line layer config s
keyed_line layer config line none none = other_line layer config (cut b'=' line)

-- A line without its comment and the spaces around it.
unfoldable pub process_text : ConfigLayer → PolycallConfig → List ℕ → Outcome PolycallConfig
process_text layer config [] = done config
process_text layer config (c ∷ s) =
    keyed_line layer config (c ∷ s) (after_keyword (codes "server") (c ∷ s))
      (after_keyword (codes "network") (c ∷ s))

-- One round of the loop. A NUL in the file ends the line for all that follows the read.
unfoldable pub process_line : ConfigLayer → PolycallConfig → List ℕ → Outcome PolycallConfig
process_line layer config raw =
    let text = text_of raw in
    if not (has_char 10 text) && not (met_end raw)
    then refused line_too_long
    else process_text layer config (trim (cut b'#' text).0)

-- What a whole file gives: the configuration, or the complaint with the number of its line.
pub data Parsed : Type 0 where
  parsed : PolycallConfig → Parsed
  stopped : Complaint → (line_number : ℕ) → Parsed

unfoldable pub process_lines : ConfigLayer → PolycallConfig → ℕ → List (List ℕ) → Parsed
process_lines layer config line_number [] = parsed config
process_lines layer config line_number (raw ∷ rest) = elim (process_line layer config raw) [
  | refused complaint ↦ stopped complaint (u32 (line_number + 1))
  | done next ↦ process_lines layer next (u32 (line_number + 1)) rest
]

-- `parse_config_file` on a file that opens and reads without an error.
unfoldable pub parse_config_file : PolycallConfig → List ℕ → ConfigLayer → Parsed
parse_config_file config file layer = process_lines layer config 0 (raw_lines file)
