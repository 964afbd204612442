-- ===== src/Config.antt =====
-- The configuration reader of src/polycall_config.c: its records, its tables of keys and what it
-- complains of. A text is the list of its characters, without the NUL that ends it.
use libpolycall_v.Prelude.{
  refl, none, some, true, false, zero, suc, [], inl, inr, ◌∷◌, List, ℕ, Bool, if◌then◌else◌, codes,
}
pub mod Text
pub mod Store
pub mod Lines
pub mod Load
pub mod Show
pub mod Commands
pub mod Valid
pub mod Stored
pub mod Preserved
pub mod Layers
pub mod Added
pub mod Hierarchy
pub mod Ports
pub mod Lookup
mod Tests

pub data ConfigLayer : Type 0 where
  project runtime language : ConfigLayer

pub record ConfigServer : Type 0 where
  pub language : List ℕ
  pub host_port : ℕ
  pub target_port : ℕ

pub record ConfigValue : Type 0 where
  pub key : List ℕ
  pub value : List ℕ

-- The arrays up to their counts.
pub record PolycallConfig : Type 0 where
  pub servers : List ConfigServer
  pub values : List ConfigValue
  pub network_enabled : Bool
  pub network_seen : Bool
  pub warnings : ℕ

abbrev pub zero_config : PolycallConfig
zero_config = record {
  servers = [];
  values = [];
  network_enabled = false;
  network_seen = false;
  warnings = 0;
}

abbrev pub max_servers : ℕ
max_servers = 32

abbrev pub max_values : ℕ
max_values = 128

abbrev pub key_size : ℕ
key_size = 64

abbrev pub value_size : ℕ
value_size = 256

abbrev pub line_size : ℕ
line_size = 1024

abbrev pub language_size : ℕ
language_size = 32

-- The messages on the error stream, but for their texts.
pub data Complaint : Type 0 where
  invalid_port_mapping not_boolean not_positive metrics_port_range : Complaint
  invalid_language invalid_server_mapping duplicate_server too_many_servers : Complaint
  line_too_long server_in_runtime server_syntax network_syntax : Complaint
  malformed_entry too_many_values malformed_syntax : Complaint

-- What a step of the reader gives: a value, or the complaint that ends the reading.
pub data Outcome {ℓ} (A : Type ℓ) : Type ℓ where
  done : A → Outcome A
  refused : Complaint → Outcome A

abbrev pub project_keys : List (List ℕ)
project_keys =
    codes "network_timeout"
    ∷ codes "max_connections"
    ∷ codes "log_directory"
    ∷ codes "workspace_root"
    ∷ codes "auto_discover"
    ∷ codes "discovery_interval"
    ∷ codes "tls_enabled"
    ∷ codes "cert_file"
    ∷ codes "key_file"
    ∷ codes "max_memory_per_service"
    ∷ codes "max_cpu_per_service"
    ∷ codes "enable_metrics"
    ∷ codes "metrics_port"
    ∷ []

abbrev pub runtime_keys : List (List ℕ)
runtime_keys =
    codes "port"
    ∷ codes "server_type"
    ∷ codes "workspace"
    ∷ codes "log_level"
    ∷ codes "max_connections"
    ∷ codes "supports_diagnostics"
    ∷ codes "supports_completion"
    ∷ codes "supports_formatting"
    ∷ codes "max_memory"
    ∷ codes "timeout"
    ∷ codes "allow_remote"
    ∷ codes "require_auth"
    ∷ codes "network_timeout"
    ∷ codes "log_directory"
    ∷ codes "workspace_root"
    ∷ codes "auto_discover"
    ∷ codes "discovery_interval"
    ∷ codes "tls_enabled"
    ∷ codes "cert_file"
    ∷ codes "key_file"
    ∷ codes "max_memory_per_service"
    ∷ codes "max_cpu_per_service"
    ∷ codes "enable_metrics"
    ∷ codes "metrics_port"
    ∷ []

abbrev pub boolean_keys : List (List ℕ)
boolean_keys =
    codes "auto_discover"
    ∷ codes "tls_enabled"
    ∷ codes "enable_metrics"
    ∷ codes "supports_diagnostics"
    ∷ codes "supports_completion"
    ∷ codes "supports_formatting"
    ∷ codes "allow_remote"
    ∷ codes "require_auth"
    ∷ []

abbrev pub positive_integer_keys : List (List ℕ)
positive_integer_keys =
    codes "network_timeout"
    ∷ codes "max_connections"
    ∷ codes "discovery_interval"
    ∷ codes "max_cpu_per_service"
    ∷ codes "metrics_port"
    ∷ codes "timeout"
    ∷ []
