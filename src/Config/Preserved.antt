-- ===== src/Config/Preserved.antt =====
-- Every line of a file keeps the configuration valid, and so does every file.
use libpolycall_v.Config.{
  project, runtime, language, done, refused, PolycallConfig, ConfigLayer, Outcome, Complaint,
  key_size, language_size, value_size, max_servers,
}
use libpolycall_v.Config.Lines.{
  parsed, stopped, Parsed, parse_config_file, warned, entry_line, checked_entry, set_outcome,
  server_words, network_word, server_line, network_line, other_line, keyed_line, process_text,
  process_line, process_lines, raw_lines, scan_server, scan_network, has_char, met_end,
}
use libpolycall_v.Prelude.{
  refl, none, some, [], inl, inr, ◌∷◌, List, ℕ, Option, length, ◌<◌, ◌≡◌, is_some, if_rule, arith,
  ◌==◌, ◌||◌, leb, Option-cases, ◌⊎◌, not, u32, codes, ◌+◌, text_of, ◌&&◌,
}
use libpolycall_v.Config.Valid.{IsValid}
use libpolycall_v.Config.Store.{config_set, add_server, validate_value, has_server}
use libpolycall_v.Config.Text.{trim, cut, parse_port_mapping, same_text}
use libpolycall_v.Config.Ports.{parse_port_mapping-ArePorts}
use libpolycall_v.Config.Stored.{appended_server-IsValid, config_set-IsValid}

-- What a line gives is valid, if it gives anything.
abbrev pub Keeps : Outcome PolycallConfig → Type 0
Keeps (done config) = IsValid config
Keeps (refused complaint) = Unit {0}

add_server-Keeps :
    (config : PolycallConfig) (name mapping : List ℕ)
    → IsValid config
    → Keeps (add_server config name mapping)
unfolding add_server
add_server-Keeps config name mapping v =
    if_rule Keeps (length name == 0 || leb language_size (length name)) (λ t. tt)
      (λ f. elim (Option-cases (parse_port_mapping mapping)) [
        | inl e ↦ rw e tt
        | inr ((host, target), e) ↦ rw e (
            if_rule Keeps (has_server config.servers name) (λ t. tt)
              (λ g.
                if_rule Keeps (leb max_servers (length config.servers)) (λ t. tt)
                  (λ r.
                    appended_server-IsValid config name host target (ground (arith, f))
                      (ground (arith, f)) (parse_port_mapping-ArePorts mapping host target e) g
                      (ground (arith, r)) v)))
      ])

warned-IsValid :
    (layer : ConfigLayer) (key : List ℕ) (config : PolycallConfig)
    → IsValid config
    → IsValid (warned layer key config)
warned-IsValid layer key config v = record {
  values_le = v.values_le;
  servers_le = v.servers_le;
  settings = v.settings;
  listed = v.listed;
  keys = v.keys;
  names = v.names;
}

set_outcome-Keeps :
    (config : PolycallConfig) (key value : List ℕ) (o : Option PolycallConfig)
    → config_set config key value ≡ o
    → validate_value key value ≡ none
    → length key < key_size
    → length value < value_size
    → IsValid config
    → Keeps (set_outcome o)
set_outcome-Keeps config key value none e a m l v = tt
set_outcome-Keeps config key value (some next) e a m l v =
    config_set-IsValid config next key value m l a e v

checked_entry-Keeps :
    (config : PolycallConfig) (key value : List ℕ) (o : Option Complaint)
    → validate_value key value ≡ o
    → length key < key_size
    → length value < value_size
    → IsValid config
    → Keeps (checked_entry config key value o)
checked_entry-Keeps config key value (some complaint) a m l v = tt
checked_entry-Keeps config key value none a m l v =
    set_outcome-Keeps config key value (config_set config key value) refl a m l v

entry_line-Keeps :
    (layer : ConfigLayer) (config : PolycallConfig) (before behind : List ℕ)
    → IsValid config
    → Keeps (entry_line layer config before behind)
unfolding entry_line
entry_line-Keeps layer config before behind v =
    let key = trim before in
    let value = trim behind in
    if_rule Keeps (is_some (cut b'=' behind).1) (λ t. tt)
      (λ f.
        if_rule Keeps
          (length key == 0
            || length value == 0
            || leb key_size (length key)
            || leb value_size (length value))
          (λ t. tt)
          (λ g.
            checked_entry-Keeps (warned layer key config) key value (validate_value key value) refl
              (ground (arith, g)) (ground (arith, g)) (warned-IsValid layer key config v)))

server_words-Keeps :
    (config : PolycallConfig) (o : Option (List ℕ × List ℕ))
    → IsValid config
    → Keeps (server_words config o)
server_words-Keeps config none v = tt
server_words-Keeps config (some (name, mapping)) v = add_server-Keeps config name mapping v

network_word-Keeps :
    (config : PolycallConfig) (o : Option (List ℕ)) → IsValid config → Keeps (network_word config o)
network_word-Keeps config none v = tt
network_word-Keeps config (some action) v =
    if_rule Keeps (same_text action (codes "start") || same_text action (codes "stop"))
      (λ t. record {
        values_le = v.values_le;
        servers_le = v.servers_le;
        settings = v.settings;
        listed = v.listed;
        keys = v.keys;
        names = v.names;
      })
      (λ f. tt)

server_line-Keeps :
    (layer : ConfigLayer) (config : PolycallConfig) (s : List ℕ)
    → IsValid config
    → Keeps (server_line layer config s)
unfolding server_line
server_line-Keeps project config s v = server_words-Keeps config (scan_server s) v
server_line-Keeps runtime config s v = tt
server_line-Keeps language config s v = tt

network_line-Keeps :
    (layer : ConfigLayer) (config : PolycallConfig) (s : List ℕ)
    → IsValid config
    → Keeps (network_line layer config s)
unfolding network_line
network_line-Keeps project config s v = network_word-Keeps config (scan_network s) v
network_line-Keeps runtime config s v = tt
network_line-Keeps language config s v = tt

other_line-Keeps :
    (layer : ConfigLayer) (config : PolycallConfig) (parts : List ℕ × Option (List ℕ))
    → IsValid config
    → Keeps (other_line layer config parts)
other_line-Keeps layer config (before, none) v = tt
other_line-Keeps layer config (before, some behind) v =
    entry_line-Keeps layer config before behind v

keyed_line-Keeps :
    (layer : ConfigLayer) (config : PolycallConfig) (line : List ℕ) (a b : Option (List ℕ))
    → IsValid config
    → Keeps (keyed_line layer config line a b)
keyed_line-Keeps layer config line (some s) b v = server_line-Keeps layer config s v
keyed_line-Keeps layer config line none (some s) v = network_line-Keeps layer config s v
keyed_line-Keeps layer config line none none v = other_line-Keeps layer config (cut b'=' line) v

process_text-Keeps :
    (layer : ConfigLayer) (config : PolycallConfig) (s : List ℕ)
    → IsValid config
    → Keeps (process_text layer config s)
unfolding process_text
process_text-Keeps layer config [] v = v
process_text-Keeps layer config (c ∷ s) v = keyed_line-Keeps layer config (c ∷ s) _ _ v

process_line-Keeps :
    (layer : ConfigLayer) (config : PolycallConfig) (raw : List ℕ)
    → IsValid config
    → Keeps (process_line layer config raw)
unfolding process_line
process_line-Keeps layer config raw v =
    if_rule Keeps (not (has_char 10 (text_of raw)) && not (met_end raw)) (λ t. tt)
      (λ f. process_text-Keeps layer config (trim (cut b'#' (text_of raw)).0) v)

pub Outcome-cases :
    (o : Outcome PolycallConfig)
    → ((c : Complaint) × (o ≡ refused c)) ⊎ ((n : PolycallConfig) × (o ≡ done n))
Outcome-cases (refused c) = inl (c, refl)
Outcome-cases (done n) = inr (n, refl)

abbrev pub KeepsAll : Parsed → Type 0
KeepsAll (parsed config) = IsValid config
KeepsAll (stopped complaint line_number) = Unit {0}

pub process_lines-KeepsAll :
    (layer : ConfigLayer) (config : PolycallConfig) (n : ℕ) (raws : List (List ℕ))
    → IsValid config
    → KeepsAll (process_lines layer config n raws)
unfolding process_lines
process_lines-KeepsAll layer config n [] v = v
process_lines-KeepsAll layer config n (raw ∷ raws) v =
    let kept = process_line-Keeps layer config raw v in
    elim (Outcome-cases (process_line layer config raw)) [
      | inl (c, e) ↦ rw (process_lines, e) tt
      | inr (next, e) ↦
          let w : IsValid next = rw e at kept in
          rw (process_lines, e) (process_lines-KeepsAll layer next (u32 (n + 1)) raws w)
    ]

-- Reading a file to its end without a complaint leaves a valid configuration valid: at most 32
-- servers with distinct names and 128 values with distinct keys, all within their arrays and
-- their ranges.
pub parse_config_file-IsValid :
    (config next : PolycallConfig) (file : List ℕ) (layer : ConfigLayer)
    → parse_config_file config file layer ≡ parsed next
    → IsValid config
    → IsValid next
unfolding parse_config_file
parse_config_file-IsValid config next file layer e v =
    rw e at (process_lines-KeepsAll layer config 0 (raw_lines file) v)
