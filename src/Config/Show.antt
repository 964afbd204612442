-- ===== src/Config/Show.antt =====
-- What is printed of a configuration.
use libpolycall_v.Config.{PolycallConfig, ConfigServer, ConfigValue}
use libpolycall_v.Prelude.{[], ◌∷◌, List, ℕ, if◌then◌else◌, codes, ◌++◌, decimal}

abbrev server_text : ConfigServer → List ℕ
server_text s =
    codes "server "
    ++ (s.language ++ b' ' ∷ (decimal s.host_port ++ b':' ∷ (decimal s.target_port ++ 10 ∷ [])))

abbrev value_text : ConfigValue → List ℕ
value_text v = v.key ++ b'=' ∷ (v.value ++ 10 ∷ [])

unfoldable pub show_servers : List ConfigServer → List ℕ
show_servers [] = []
show_servers (s ∷ servers) = server_text s ++ show_servers servers

unfoldable pub show_values : List ConfigValue → List ℕ
show_values [] = []
show_values (v ∷ values) = value_text v ++ show_values values

abbrev pub network_text : PolycallConfig → List ℕ
network_text config =
    if config.network_seen
    then if config.network_enabled
      then codes "network start" ++ 10 ∷ []
      else codes "network stop" ++ 10 ∷ []
    else []

-- `show_config`.
unfoldable pub show_config : PolycallConfig → List ℕ
show_config config =
    show_servers config.servers ++ (network_text config ++ show_values config.values)
