-- ===== src/Config/Store.antt =====
-- The table of values and the list of servers.
use mathlib.Core.Option
use libpolycall_v.Config.{
  project, done, refused, PolycallConfig, ConfigServer, ConfigValue, ConfigLayer, Outcome,
  Complaint, project_keys, value_size, key_size, language_size, runtime_keys, max_values,
  invalid_language, invalid_port_mapping, invalid_server_mapping, boolean_keys, duplicate_server,
  not_boolean, max_servers, positive_integer_keys, too_many_servers, not_positive,
  metrics_port_range,
}
use libpolycall_v.Prelude.{
  none, some, false, [], ◌∷◌, List, ℕ, Bool, if◌then◌else◌, Option, take, ◌++◌, length, leb, not,
  codes, ◌||◌, ◌==◌, ◌-◌, ltb, ◌&&◌, is_some,
}
use libpolycall_v.Config.Text.{
  string_in_list, same_text, parse_port_mapping, parse_positive_integer,
}

abbrev pub is_known_key : List ℕ → ConfigLayer → Bool
is_known_key key project = string_in_list key project_keys
is_known_key key _ = string_in_list key runtime_keys

unfoldable pub get_value : List ConfigValue → List ℕ → Option (List ℕ)
get_value [] key = none
get_value (v ∷ values) key = if same_text v.key key then some v.value else get_value values key

-- `config_get`.
unfoldable pub config_get : PolycallConfig → List ℕ → Option (List ℕ)
config_get config key = get_value config.values key

-- The first loop of `config_set`: the values with that of the key replaced, if it is there.
-- `snprintf` cuts a text to its array.
unfoldable pub replace_value : List ConfigValue → List ℕ → List ℕ → Option (List ConfigValue)
replace_value [] key value = none
replace_value (v ∷ values) key value =
    let rest = replace_value values key value in
    if same_text v.key key
    then some (record v { value = take (value_size - 1) value } ∷ values)
    else Option.map (v ∷◌) rest

abbrev pub stored_value : List ℕ → List ℕ → ConfigValue
stored_value key value = record {
  key = take (key_size - 1) key;
  value = take (value_size - 1) value;
}

-- `config_set`: the configuration, or `none` when the table is full.
unfoldable pub config_set : PolycallConfig → List ℕ → List ℕ → Option PolycallConfig
config_set config key value = elim (replace_value config.values key value) [
  | some values ↦ some (record config { values = values })
  | none ↦
      if leb max_values (length config.values)
      then none
      else some (record config { values = config.values ++ stored_value key value ∷ [] })
]

abbrev pub is_port : Option ℕ → Bool
is_port none = false
is_port (some n) = not (ltb 65535 n)

-- What is wrong with a value, if anything: the tests in their order.
unfoldable pub validate_value : List ℕ → List ℕ → Option Complaint
validate_value key value =
    if same_text key (codes "port") && not (is_some (parse_port_mapping value))
    then some invalid_port_mapping
    else if string_in_list key boolean_keys
        && not (same_text value (codes "true"))
        && not (same_text value (codes "false"))
    then some not_boolean
    else if string_in_list key positive_integer_keys && not (is_some (parse_positive_integer value))
    then some not_positive
    else if same_text key (codes "metrics_port") && not (is_port (parse_positive_integer value))
    then some metrics_port_range
    else none

unfoldable pub has_server : List ConfigServer → List ℕ → Bool
has_server [] name = false
has_server (s ∷ servers) name = same_text s.language name || has_server servers name

abbrev pub appended_server : PolycallConfig → List ℕ → ℕ × ℕ → PolycallConfig
appended_server config name (host_port, target_port) = record config {
  servers =
      config.servers
      ++ record {
        language = take (language_size - 1) name;
        host_port = host_port;
        target_port = target_port;
      }
        ∷ [];
}

unfoldable pub add_server : PolycallConfig → List ℕ → List ℕ → Outcome PolycallConfig
add_server config name mapping =
    if length name == 0 || leb language_size (length name)
    then refused invalid_language
    else elim (parse_port_mapping mapping) [
      | none ↦ refused invalid_server_mapping
      | some ports ↦
          if has_server config.servers name
          then refused duplicate_server
          else if leb max_servers (length config.servers)
          then refused too_many_servers
          else done (appended_server config name ports)
    ]
