-- ===== src/Config/Stored.antt =====
-- Storing a value and adding a server keep a configuration valid.
use libpolycall_v.Config.{
  PolycallConfig, ConfigServer, ConfigValue, key_size, language_size, value_size, max_values,
  max_servers,
}
use libpolycall_v.Prelude.{
  refl, none, some, false, [], ◌∷◌, List, ℕ, Option, length, ◌<◌, ◌≡◌, is_some, if_rule, arith,
  length-append,
}
use libpolycall_v.Config.Valid.{
  IsValid, length-replaced, AllListed-append, AllSettings-replaced, DistinctNames-append,
  DistinctKeys-replaced, AllSettings-append, stored_value-IsSetting, DistinctKeys-append,
}
use libpolycall_v.Config.Store.{
  config_set, validate_value, get_value, has_server, appended_server, stored_value,
}
use libpolycall_v.Config.Ports.{ArePorts}
use libpolycall_v.Config.Lookup.{config_set-assigned, replace_value-replaced, assigned, take_all}

-- A key that is not there is added only while there is room.
config_set-room :
    (config next : PolycallConfig) (key value : List ℕ)
    → config_set config key value ≡ some next
    → is_some (get_value config.values key) ≡ false
    → length config.values < max_values
unfolding config_set
config_set-room config next key value e f =
    ground (arith, e, f, replace_value-replaced config.values key value)

pub is_some-none : (o : Option (List ℕ)) → is_some o ≡ false → o ≡ none
is_some-none none h = refl
is_some-none (some a) h = absurd (ground (arith, h))

assigned-IsValid :
    (config : PolycallConfig) (key value : List ℕ)
    → length key < key_size
    → length value < value_size
    → validate_value key value ≡ none
    → (is_some (get_value config.values key) ≡ false → length config.values < max_values)
    → IsValid config
    → IsValid (record config { values = assigned config.values key value })
assigned-IsValid config key value m l a room v =
    if_rule (λ (values : List ConfigValue). IsValid (record config { values = values }))
      (is_some (get_value config.values key))
      (λ t. record {
        values_le = omega (arith, v.values_le, length-replaced config.values key value);
        servers_le = v.servers_le;
        settings = AllSettings-replaced config.values key value v.settings l a;
        listed = v.listed;
        keys = DistinctKeys-replaced config.values key value v.keys;
        names = v.names;
      })
      (λ f. record {
        values_le =
            omega (arith, room f, length-append config.values (stored_value key value ∷ []));
        servers_le = v.servers_le;
        settings =
            AllSettings-append config.values (stored_value key value) v.settings
              (stored_value-IsSetting key value m l a);
        listed = v.listed;
        keys = DistinctKeys-append config.values (stored_value key value) v.keys (
            rw (take_all 63 key (omega (arith, m))) (is_some-none (get_value config.values key) f));
        names = v.names;
      })

pub config_set-IsValid :
    (config next : PolycallConfig) (key value : List ℕ)
    → length key < key_size
    → length value < value_size
    → validate_value key value ≡ none
    → config_set config key value ≡ some next
    → IsValid config
    → IsValid next
config_set-IsValid config next key value m l a e v =
    rw (config_set-assigned config next key value e)
      (assigned-IsValid config key value m l a (config_set-room config next key value e) v)

abbrev server_of : List ℕ → ℕ → ℕ → ConfigServer
server_of name host target = record { language = name; host_port = host; target_port = target }

pub appended_server-IsValid :
    (config : PolycallConfig) (name : List ℕ) (host target : ℕ)
    → 0 < length name
    → length name < language_size
    → ArePorts host target
    → has_server config.servers name ≡ false
    → length config.servers < max_servers
    → IsValid config
    → IsValid (appended_server config name (host, target))
appended_server-IsValid config name host target p l ports f room v =
    let whole = take_all 31 name (omega (arith, l)) in
    rw whole (record {
      values_le = v.values_le;
      servers_le =
          omega (arith, room, length-append config.servers (server_of name host target ∷ []));
      settings = v.settings;
      listed =
          AllListed-append config.servers (server_of name host target) v.listed
            (record { name_positive = p; name_lt = l; ports = ports });
      keys = v.keys;
      names = DistinctNames-append config.servers (server_of name host target) v.names f;
    })
