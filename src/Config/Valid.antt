-- ===== src/Config/Valid.antt =====
-- What holds of every configuration that has been read: the counts are within the arrays, no key and
-- no language occurs twice, and every value and every port has passed its test.
use libpolycall_v.Config.{
  PolycallConfig, ConfigServer, ConfigValue, zero_config, key_size, language_size, value_size,
  max_values, max_servers,
}
use libpolycall_v.Prelude.{
  refl, none, true, false, [], ◌∷◌, List, ℕ, length, ◌<◌, ◌++◌, ◌≡◌, ◌≤◌, arith, if_rule, ◌||◌,
  take, ◌-◌,
}
use libpolycall_v.Config.Store.{get_value, has_server, validate_value, stored_value}
use libpolycall_v.Config.Lookup.{replaced, get_value-append, same_text_sym, take_all, same_text_eq}
use libpolycall_v.Config.Text.{same_text}
use libpolycall_v.Config.Ports.{ArePorts}

pub record IsSetting (v : ConfigValue) : Type 0 where
  pub key_lt : length v.key < key_size
  pub value_lt : length v.value < value_size
  pub accepted : validate_value v.key v.value ≡ none

pub record IsListed (s : ConfigServer) : Type 0 where
  pub name_positive : 0 < length s.language
  pub name_lt : length s.language < language_size
  pub ports : ArePorts s.host_port s.target_port

abbrev pub AllSettings : List ConfigValue → Type 0
AllSettings [] = Unit {0}
AllSettings (v ∷ values) = IsSetting v × AllSettings values

abbrev pub AllListed : List ConfigServer → Type 0
AllListed [] = Unit {0}
AllListed (s ∷ servers) = IsListed s × AllListed servers

-- No key occurs twice.
abbrev pub DistinctKeys : List ConfigValue → Type 0
DistinctKeys [] = Unit {0}
DistinctKeys (v ∷ values) = (get_value values v.key ≡ none) × DistinctKeys values

abbrev pub DistinctNames : List ConfigServer → Type 0
DistinctNames [] = Unit {0}
DistinctNames (s ∷ servers) = (has_server servers s.language ≡ false) × DistinctNames servers

pub record IsValid (config : PolycallConfig) : Type 0 where
  pub values_le : length config.values ≤ max_values
  pub servers_le : length config.servers ≤ max_servers
  pub settings : AllSettings config.values
  pub listed : AllListed config.servers
  pub keys : DistinctKeys config.values
  pub names : DistinctNames config.servers

pub zero_config-IsValid : IsValid zero_config
zero_config-IsValid = record {
  values_le = omega arith;
  servers_le = omega arith;
  settings = tt;
  listed = tt;
  keys = tt;
  names = tt;
}

pub AllSettings-append :
    (values : List ConfigValue) (v : ConfigValue)
    → AllSettings values
    → IsSetting v
    → AllSettings (values ++ v ∷ [])
AllSettings-append [] v a i = (i, tt)
AllSettings-append (w ∷ values) v a i = (a.0, AllSettings-append values v a.1 i)

pub AllListed-append :
    (servers : List ConfigServer) (s : ConfigServer)
    → AllListed servers
    → IsListed s
    → AllListed (servers ++ s ∷ [])
AllListed-append [] s a i = (i, tt)
AllListed-append (t ∷ servers) s a i = (a.0, AllListed-append servers s a.1 i)

pub DistinctKeys-append :
    (values : List ConfigValue) (v : ConfigValue)
    → DistinctKeys values
    → get_value values v.key ≡ none
    → DistinctKeys (values ++ v ∷ [])
unfolding get_value
DistinctKeys-append [] v a n = (refl, tt)
DistinctKeys-append (w ∷ values) v a n = (
  ground (arith, n, a.0, get_value-append values v w.key, same_text_sym w.key v.key),
  DistinctKeys-append values v a.1 (ground (arith, n)),
)

has_server-append :
    (servers : List ConfigServer) (s : ConfigServer) (name : List ℕ)
    → has_server (servers ++ s ∷ []) name ≡ (has_server servers name || same_text s.language name)
unfolding has_server
has_server-append [] s name = ground arith
has_server-append (t ∷ servers) s name = ground (arith, has_server-append servers s name)

pub DistinctNames-append :
    (servers : List ConfigServer) (s : ConfigServer)
    → DistinctNames servers
    → has_server servers s.language ≡ false
    → DistinctNames (servers ++ s ∷ [])
unfolding has_server
DistinctNames-append [] s a n = (refl, tt)
DistinctNames-append (t ∷ servers) s a n = (
  ground
      (arith, n, a.0, has_server-append servers s t.language, same_text_sym t.language s.language),
  DistinctNames-append servers s a.1 (ground (arith, n)),
)

pub length-replaced :
    (values : List ConfigValue) (key value : List ℕ)
    → length (replaced values key value) ≡ length values
unfolding replaced
length-replaced [] key value = refl
length-replaced (v ∷ values) key value = ground (arith, length-replaced values key value)

get_value-replaced-none :
    (values : List ConfigValue) (key value k : List ℕ)
    → get_value values k ≡ none
    → get_value (replaced values key value) k ≡ none
unfolding get_value replaced
get_value-replaced-none [] key value k h = refl
get_value-replaced-none (v ∷ values) key value k h =
    ground (arith, h, get_value-replaced-none values key value k)

pub DistinctKeys-replaced :
    (values : List ConfigValue) (key value : List ℕ)
    → DistinctKeys values
    → DistinctKeys (replaced values key value)
unfolding replaced
DistinctKeys-replaced [] key value a = tt
DistinctKeys-replaced (v ∷ values) key value a =
    if_rule DistinctKeys (same_text v.key key) (λ t. a)
      (λ f. (
        get_value-replaced-none values key value v.key a.0,
        DistinctKeys-replaced values key value a.1,
      ))

updated-IsSetting :
    (v : ConfigValue) (key value : List ℕ)
    → IsSetting v
    → same_text v.key key ≡ true
    → length value < value_size
    → validate_value key value ≡ none
    → IsSetting (record v { value = take (value_size - 1) value })
updated-IsSetting v key value i e l a = record {
  key_lt = i.key_lt;
  value_lt = rw (take_all 255 value (omega (arith, l))) l;
  accepted = rw (take_all 255 value (omega (arith, l)), same_text_eq v.key key e) a;
}

pub AllSettings-replaced :
    (values : List ConfigValue) (key value : List ℕ)
    → AllSettings values
    → length value < value_size
    → validate_value key value ≡ none
    → AllSettings (replaced values key value)
unfolding replaced
AllSettings-replaced [] key value a l i = tt
AllSettings-replaced (v ∷ values) key value a l i =
    if_rule AllSettings (same_text v.key key) (λ t. (updated-IsSetting v key value a.0 t l i, a.1))
      (λ f. (a.0, AllSettings-replaced values key value a.1 l i))

pub stored_value-IsSetting :
    (key value : List ℕ)
    → length key < key_size
    → length value < value_size
    → validate_value key value ≡ none
    → IsSetting (stored_value key value)
stored_value-IsSetting key value m l a = record {
  key_lt = rw (take_all 63 key (omega (arith, m))) m;
  value_lt = rw (take_all 255 value (omega (arith, l))) l;
  accepted = rw (take_all 63 key (omega (arith, m)), take_all 255 value (omega (arith, l))) a;
}
