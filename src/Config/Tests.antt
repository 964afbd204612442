-- ===== src/Config/Tests.antt =====
-- Runs of the configuration reader, and the theorems at them.
use libpolycall_v.Prelude.{
  text_of, drop_while, take_while, number_from, decimal, digits_onto, refl, none, some, true, false,
  [], ◌∷◌, List, ℕ, if◌then◌else◌, codes, ◌++◌, ◌≡◌, or_else, arith,
}
use libpolycall_v.Config.{project, ConfigValue, PolycallConfig, zero_config, duplicate_server}
use libpolycall_v.Config.Lines.{
  parsed, stopped, parse_config_file, process_lines, process_line, process_text, chunks, has_char,
  after_keyword, server_line, network_line, entry_line, scan_word, scan_server, scan_network,
  raw_lines,
}
use libpolycall_v.Config.Load.{
  Files, project_path, runtime_path, Loaded, load_hierarchy, language_path, load_layers, load_file,
  load_language, parse_path, validate_required, all_language_chars,
}
use libpolycall_v.Config.Text.{
  same_text, trim, trim_end, cut, string_in_list, parse_port_mapping, parse_positive_integer,
  strtoul, unsigned_digits,
}
use libpolycall_v.Config.Store.{
  add_server, validate_value, config_set, replace_value, has_server, config_get, get_value,
}
use libpolycall_v.Config.Show.{show_config, show_servers, show_values}
use libpolycall_v.Config.Commands.{
  config_cli, validate_one, infer_layer, behind, file_name, printed,
}
use libpolycall_v.Config.Valid.{IsValid, zero_config-IsValid}
use libpolycall_v.Config.Ports.{parse_port_mapping-decimal}
use libpolycall_v.Config.Preserved.{parse_config_file-IsValid}
use libpolycall_v.Config.Hierarchy.{load_hierarchy_lem}
use libpolycall_v.Config.Added.{language_value, file_value}
use libpolycall_v.Config.Layers.{last_value, parse_config_file_lem}

abbrev project_file : List ℕ
project_file =
    codes "# services"
    ++ 10
      ∷ (codes "server node 8080:8084"
          ++ 10
            ∷ (codes "network start"
                ++ 10
                  ∷ (codes "log_directory = /var/log"
                      ++ 10
                        ∷ (codes "workspace_root=/srv"
                            ++ 10 ∷ (codes "max_connections=10" ++ 10 ∷ [])))))

abbrev runtime_file : List ℕ
runtime_file = codes "log_directory=/tmp" ++ 10 ∷ codes "colour=red"

abbrev node_file : List ℕ
node_file =
    codes "port=8080:8084"
    ++ 10 ∷ (codes "server_type=node" ++ 10 ∷ (codes "workspace=/srv/node # here" ++ 10 ∷ []))

abbrev files : Files
files path =
    if same_text path project_path
    then some project_file
    else if same_text path runtime_path
    then some runtime_file
    else if same_text path (codes "Polycallrc.node")
    then some node_file
    else none

abbrev setting : List ℕ → List ℕ → ConfigValue
setting k v = record { key = k; value = v }

abbrev project_config : PolycallConfig
project_config = record {
  servers = record { language = codes "node"; host_port = 8080; target_port = 8084 } ∷ [];
  values =
      setting (codes "log_directory") (codes "/var/log")
      ∷ setting (codes "workspace_root") (codes "/srv")
      ∷ setting (codes "max_connections") (codes "10")
      ∷ [];
  network_enabled = true;
  network_seen = true;
  warnings = 0;
}

parse_project : parse_config_file zero_config project_file project ≡ parsed project_config
unfolding parse_config_file process_lines process_line process_text chunks has_char trim trim_end
    cut after_keyword server_line add_server network_line entry_line validate_value config_set
    replace_value same_text string_in_list scan_word scan_server scan_network parse_port_mapping
    parse_positive_integer strtoul unsigned_digits has_server text_of drop_while take_while
    number_from
parse_project = refl

show_then_parse :
    parse_config_file zero_config (show_config project_config) project ≡ parsed project_config
unfolding parse_config_file process_lines process_line process_text chunks has_char trim trim_end
    cut after_keyword server_line add_server network_line entry_line validate_value config_set
    replace_value same_text string_in_list scan_word scan_server scan_network parse_port_mapping
    parse_positive_integer strtoul unsigned_digits has_server text_of drop_while take_while
    number_from show_config show_servers show_values decimal digits_onto
show_then_parse = refl

duplicate :
    parse_config_file zero_config
      (codes "server a 1:2" ++ 10 ∷ (codes "server a 3:4" ++ 10 ∷ []))
      project
    ≡ stopped duplicate_server 2
unfolding parse_config_file process_lines process_line process_text chunks has_char trim trim_end
    cut after_keyword server_line add_server network_line entry_line validate_value config_set
    replace_value same_text string_in_list scan_word scan_server scan_network parse_port_mapping
    parse_positive_integer strtoul unsigned_digits has_server text_of drop_while take_while
    number_from
duplicate = refl

abbrev loaded_node : Loaded
loaded_node = record {
  config = record project_config {
    values =
        setting (codes "log_directory") (codes "/tmp")
        ∷ setting (codes "workspace_root") (codes "/srv")
        ∷ setting (codes "max_connections") (codes "10")
        ∷ setting (codes "colour") (codes "red")
        ∷ setting (codes "port") (codes "8080:8084")
        ∷ setting (codes "server_type") (codes "node")
        ∷ setting (codes "workspace") (codes "/srv/node")
        ∷ [];
    warnings = 1;
  };
  paths = project_path ∷ runtime_path ∷ language_path (codes "node") ∷ [];
  used_legacy = false;
}

load_node : load_hierarchy files (some (codes "node")) ≡ some loaded_node
unfolding parse_config_file process_lines process_line process_text chunks has_char trim trim_end
    cut after_keyword server_line add_server network_line entry_line validate_value config_set
    replace_value same_text string_in_list scan_word scan_server scan_network parse_port_mapping
    parse_positive_integer strtoul unsigned_digits has_server text_of drop_while take_while
    number_from load_hierarchy load_layers load_file load_language parse_path validate_required
    all_language_chars get_value config_get
load_node = refl

no_legacy : load_hierarchy files (some (codes "lua")) ≡ none
unfolding parse_config_file process_lines process_line process_text chunks has_char trim trim_end
    cut after_keyword server_line add_server network_line entry_line validate_value config_set
    replace_value same_text string_in_list scan_word scan_server scan_network parse_port_mapping
    parse_positive_integer strtoul unsigned_digits has_server text_of drop_while take_while
    number_from load_hierarchy load_layers load_file load_language parse_path all_language_chars
no_legacy = refl

validate_node :
    config_cli files false
      (codes "polycall" ∷ codes "config" ∷ codes "validate" ∷ codes "Polycallrc.node" ∷ [])
    ≡ some (printed (codes "Polycallrc.node is valid" ++ 10 ∷ []))
unfolding parse_config_file process_lines process_line process_text chunks has_char trim trim_end
    cut after_keyword server_line add_server network_line entry_line validate_value config_set
    replace_value same_text string_in_list scan_word scan_server scan_network parse_port_mapping
    parse_positive_integer strtoul unsigned_digits has_server text_of drop_while take_while
    number_from config_cli validate_one infer_layer behind file_name parse_path validate_required
    get_value config_get
validate_node = refl

load_hierarchy_lem_example :
    IsValid loaded_node.config
    × ((k : List ℕ)
        → config_get loaded_node.config k
          ≡ or_else
              (language_value files (some (codes "node")) k)
              (or_else (file_value files runtime_path k) (file_value files project_path k)))
    × (validate_required loaded_node.config true (some (codes "node")) ≡ true)
load_hierarchy_lem_example = load_hierarchy_lem files (some (codes "node")) loaded_node load_node

parse_config_file-IsValid_example : IsValid project_config
parse_config_file-IsValid_example =
    parse_config_file-IsValid zero_config project_config project_file project parse_project
      zero_config-IsValid

parse_config_file_lem_example :
    config_get project_config (codes "log_directory")
    ≡ or_else
        (last_value (raw_lines project_file) (codes "log_directory"))
        (config_get zero_config (codes "log_directory"))
parse_config_file_lem_example =
    parse_config_file_lem zero_config project_config project_file project (codes "log_directory")
      parse_project

parse_port_mapping-decimal_example :
    parse_port_mapping (decimal 8080 ++ b':' ∷ decimal 65535) ≡ some (8080, 65535)
parse_port_mapping-decimal_example =
    parse_port_mapping-decimal 8080 65535 (omega arith) (omega arith) (omega arith) (omega arith)
