-- ===== src/Config/Layers.antt =====
-- What a file assigns, and how the files of the hierarchy override one another.
use libpolycall_v.Config.{
  project, runtime, language, done, refused, PolycallConfig, ConfigLayer, Outcome, Complaint,
  key_size, value_size, language_size, max_servers,
}
use libpolycall_v.Config.Lines.{
  parsed, stopped, Parsed, parse_config_file, entry_line, server_line, network_line, process_text,
  process_line, process_lines, server_words, network_word, other_line, scan_server, scan_network,
  after_keyword, keyed_line, raw_lines, has_char, set_outcome, checked_entry, warned, met_end,
}
use libpolycall_v.Prelude.{
  refl, none, some, [], inl, inr, ◌∷◌, List, ℕ, if◌then◌else◌, Option, ◌∙◌, or_else, ◌≡◌, length,
  if_rule, ap, text_of, ◌<◌, is_some, ◌==◌, codes, not, sym, u32, ◌||◌, or_else_assoc, ◌+◌, leb,
  ◌&&◌, Option-cases, arith,
}
use libpolycall_v.Config.Store.{
  add_server, get_value, config_get, config_set, validate_value, has_server,
}
use libpolycall_v.Config.Text.{trim, same_text, cut, parse_port_mapping}
use libpolycall_v.Config.Preserved.{Outcome-cases}
use libpolycall_v.Config.Lookup.{config_set-assigned, get_value-assigned}

abbrev entry_parts :
    Option (List ℕ) → Option (List ℕ) → List ℕ × Option (List ℕ) → Option (List ℕ × List ℕ)
entry_parts none none (before, some behind) = some (trim before, trim behind)
entry_parts _ _ _ = none

-- The key and the value of a line that has a `=` and no keyword before it.
unfoldable pub entry_of : List ℕ → Option (List ℕ × List ℕ)
entry_of raw =
    let line = trim (cut b'#' (text_of raw)).0 in
    entry_parts (after_keyword (codes "server") line) (after_keyword (codes "network") line)
      (cut b'=' line)

abbrev pub value_in : Option (List ℕ × List ℕ) → List ℕ → Option (List ℕ)
value_in none k = none
value_in (some (key, value)) k = if same_text key k then some value else none

-- What the last of the lines that assign a key assigns to it.
unfoldable pub last_value : List (List ℕ) → List ℕ → Option (List ℕ)
last_value [] k = none
last_value (raw ∷ raws) k = or_else (last_value raws k) (value_in (entry_of raw) k)

-- A line that is accepted changes the values by its entry alone.
abbrev Sets : PolycallConfig → Option (List ℕ × List ℕ) → List ℕ → Outcome PolycallConfig → Type 0
Sets config entry k (refused complaint) = Unit {0}
Sets config entry k (done next) =
    get_value next.values k ≡ or_else (value_in entry k) (get_value config.values k)

set_outcome-Sets :
    (config : PolycallConfig) (key value k : List ℕ) (o : Option PolycallConfig)
    → config_set config key value ≡ o
    → length key < key_size
    → length value < value_size
    → Sets config (some (key, value)) k (set_outcome o)
set_outcome-Sets config key value k none e m l = tt
set_outcome-Sets config key value k (some next) e m l =
    rw (config_set-assigned config next key value e)
      (ground (arith, get_value-assigned config.values key value k m l))

checked_entry-Sets :
    (config : PolycallConfig) (key value k : List ℕ) (o : Option Complaint)
    → length key < key_size
    → length value < value_size
    → Sets config (some (key, value)) k (checked_entry config key value o)
checked_entry-Sets config key value k (some complaint) m l = tt
checked_entry-Sets config key value k none m l =
    set_outcome-Sets config key value k (config_set config key value) refl m l

entry_line-Sets :
    (layer : ConfigLayer) (config : PolycallConfig) (before behind k : List ℕ)
    → Sets config (some (trim before, trim behind)) k (entry_line layer config before behind)
unfolding entry_line
entry_line-Sets layer config before behind k =
    let key = trim before in
    let value = trim behind in
    let P : Outcome PolycallConfig → Type 0 = Sets config (some (key, value)) k in
    if_rule P (is_some (cut b'=' behind).1) (λ t. tt)
      (λ f.
        if_rule P
          (length key == 0
            || length value == 0
            || leb key_size (length key)
            || leb value_size (length value))
          (λ t. tt)
          (λ g.
            checked_entry-Sets (warned layer key config) key value k (validate_value key value)
              (ground (arith, g)) (ground (arith, g))))

add_server-Sets :
    (config : PolycallConfig) (name mapping k : List ℕ)
    → Sets config none k (add_server config name mapping)
unfolding add_server
add_server-Sets config name mapping k =
    if_rule (Sets config none k) (length name == 0 || leb language_size (length name)) (λ t. tt)
      (λ f. elim (Option-cases (parse_port_mapping mapping)) [
        | inl e ↦ rw e tt
        | inr (ports, e) ↦ rw e (
            if_rule (Sets config none k) (has_server config.servers name) (λ t. tt)
              (λ g.
                if_rule (Sets config none k) (leb max_servers (length config.servers)) (λ t. tt)
                  (λ r. refl)))
      ])

server_words-Sets :
    (config : PolycallConfig) (o : Option (List ℕ × List ℕ)) (k : List ℕ)
    → Sets config none k (server_words config o)
server_words-Sets config none k = tt
server_words-Sets config (some (name, mapping)) k = add_server-Sets config name mapping k

network_word-Sets :
    (config : PolycallConfig) (o : Option (List ℕ)) (k : List ℕ)
    → Sets config none k (network_word config o)
network_word-Sets config none k = tt
network_word-Sets config (some action) k =
    if_rule (Sets config none k)
      (same_text action (codes "start") || same_text action (codes "stop")) (λ t. refl) (λ f. tt)

other_line-Sets :
    (layer : ConfigLayer) (config : PolycallConfig) (k : List ℕ) (parts : List ℕ × Option (List ℕ))
    → Sets config (entry_parts none none parts) k (other_line layer config parts)
other_line-Sets layer config k (before, none) = tt
other_line-Sets layer config k (before, some behind) = entry_line-Sets layer config before behind k

server_line-Sets :
    (layer : ConfigLayer) (config : PolycallConfig) (s k : List ℕ)
    → Sets config none k (server_line layer config s)
unfolding server_line
server_line-Sets project config s k = server_words-Sets config (scan_server s) k
server_line-Sets runtime config s k = tt
server_line-Sets language config s k = tt

network_line-Sets :
    (layer : ConfigLayer) (config : PolycallConfig) (s k : List ℕ)
    → Sets config none k (network_line layer config s)
unfolding network_line
network_line-Sets project config s k = network_word-Sets config (scan_network s) k
network_line-Sets runtime config s k = tt
network_line-Sets language config s k = tt

keyed_line-Sets :
    (layer : ConfigLayer) (config : PolycallConfig) (line k : List ℕ) (a b : Option (List ℕ))
    → Sets config (entry_parts a b (cut b'=' line)) k (keyed_line layer config line a b)
keyed_line-Sets layer config line k (some s) b = server_line-Sets layer config s k
keyed_line-Sets layer config line k none (some s) = network_line-Sets layer config s k
keyed_line-Sets layer config line k none none = other_line-Sets layer config k (cut b'=' line)

process_text-Sets :
    (layer : ConfigLayer) (config : PolycallConfig) (line k : List ℕ)
    → Sets config
        (entry_parts
          (after_keyword (codes "server") line)
          (after_keyword (codes "network") line)
          (cut b'=' line))
        k
        (process_text layer config line)
unfolding process_text after_keyword get_value cut
process_text-Sets layer config [] k = refl
process_text-Sets layer config (c ∷ s) k = keyed_line-Sets layer config (c ∷ s) k _ _

process_line-Sets :
    (layer : ConfigLayer) (config : PolycallConfig) (raw k : List ℕ)
    → Sets config (entry_of raw) k (process_line layer config raw)
unfolding process_line entry_of
process_line-Sets layer config raw k =
    if_rule (Sets config (entry_of raw) k) (not (has_char 10 (text_of raw)) && not (met_end raw))
      (λ t. tt) (λ f. process_text-Sets layer config (trim (cut b'#' (text_of raw)).0) k)

abbrev SetsAll : PolycallConfig → List (List ℕ) → List ℕ → Parsed → Type 0
SetsAll config raws k (stopped complaint line_number) = Unit {0}
SetsAll config raws k (parsed next) =
    get_value next.values k ≡ or_else (last_value raws k) (get_value config.values k)

joined :
    (config next : PolycallConfig) (raw : List ℕ) (raws : List (List ℕ)) (k : List ℕ) (o : Parsed)
    → Sets config (entry_of raw) k (done next)
    → SetsAll next raws k o
    → SetsAll config (raw ∷ raws) k o
unfolding last_value
joined config next raw raws k (stopped c n) w h = tt
joined config next raw raws k (parsed last) w h =
    h
    ∙ ap (or_else (last_value raws k)) w
    ∙ sym
        (or_else_assoc (last_value raws k) (value_in (entry_of raw) k) (get_value config.values k))

process_lines-SetsAll :
    (layer : ConfigLayer) (config : PolycallConfig) (n : ℕ) (raws : List (List ℕ)) (k : List ℕ)
    → SetsAll config raws k (process_lines layer config n raws)
unfolding process_lines last_value
process_lines-SetsAll layer config n [] k = refl
process_lines-SetsAll layer config n (raw ∷ raws) k =
    let one = process_line-Sets layer config raw k in
    elim (Outcome-cases (process_line layer config raw)) [
      | inl (c, e) ↦ rw (process_lines, e) tt
      | inr (next, e) ↦
          let w : Sets config (entry_of raw) k (done next) = rw e at one in
          rw (process_lines, e)
            (joined config next raw raws k (process_lines layer next (u32 (n + 1)) raws) w
              (process_lines-SetsAll layer next (u32 (n + 1)) raws k))
    ]

-- After a file that is read to its end, each key has the value of the last line of the file
-- that assigns it, or the value it had before when no line does.
pub parse_config_file_lem :
    (config next : PolycallConfig) (file : List ℕ) (layer : ConfigLayer) (k : List ℕ)
    → parse_config_file config file layer ≡ parsed next
    → config_get next k ≡ or_else (last_value (raw_lines file) k) (config_get config k)
unfolding parse_config_file config_get
parse_config_file_lem config next file layer k e =
    rw e at (process_lines-SetsAll layer config 0 (raw_lines file) k)
