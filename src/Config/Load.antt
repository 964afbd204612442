-- ===== src/Config/Load.antt =====
-- The hierarchy of configuration files. `Files` gives the content of the file under a path, if
-- there is one; a file that exists can be opened and read.
use mathlib.Core.Option
use libpolycall_v.Config.{project, runtime, language, PolycallConfig, ConfigLayer, zero_config}
use libpolycall_v.Config.Lines.{parsed, stopped, Parsed, parse_config_file}
use libpolycall_v.Prelude.{
  none, some, true, false, [], ◌∷◌, List, ℕ, Bool, if◌then◌else◌, Option, is_some, is_alpha, ◌&&◌,
  not, codes, take, ◌||◌, length, leb, ◌-◌, is_digit, ◌==◌, ◌++◌,
}
use libpolycall_v.Config.Store.{config_get}
use libpolycall_v.Config.Text.{same_text}

abbrev pub Files : Type 0
Files = List ℕ → Option (List ℕ)

abbrev pub file_exists : Files → List ℕ → Bool
file_exists files path = is_some (files path)

abbrev pub parsed_or_none : Parsed → Option PolycallConfig
parsed_or_none (parsed config) = some config
parsed_or_none (stopped complaint line_number) = none

-- `parse_config_file` on a path: the configuration when it answers true.
unfoldable pub parse_path : Files → PolycallConfig → List ℕ → ConfigLayer → Option PolycallConfig
parse_path files config path layer = elim (files path) [
  | none ↦ none
  | some file ↦ parsed_or_none (parse_config_file config file layer)
]

abbrev pub has_value : PolycallConfig → List ℕ → Bool
has_value config key = is_some (config_get config key)

abbrev pub is_value : List ℕ → Option (List ℕ) → Bool
is_value value none = false
is_value value (some v) = same_text v value

abbrev pub language_fields : PolycallConfig → Option (List ℕ) → Bool
language_fields config none = true
language_fields config (some name) =
    has_value config (codes "workspace") && is_value name (config_get config (codes "server_type"))

unfoldable pub validate_required : PolycallConfig → Bool → Option (List ℕ) → Bool
validate_required config require_project_fields name =
    (not require_project_fields
      || has_value config (codes "workspace_root") && has_value config (codes "log_directory"))
    && (not (is_value (codes "true") (config_get config (codes "tls_enabled")))
        || has_value config (codes "cert_file") && has_value config (codes "key_file"))
    && language_fields config name

abbrev is_language_char : ℕ → Bool
is_language_char c = is_alpha c || is_digit c || c == b'-' || c == b'_'

unfoldable pub all_language_chars : List ℕ → Bool
all_language_chars [] = true
all_language_chars (c ∷ s) = is_language_char c && all_language_chars s

abbrev pub valid_language : List ℕ → Bool
valid_language name = not (length name == 0) && all_language_chars name

-- What was loaded, and from where.
pub record Loaded : Type 0 where
  pub config : PolycallConfig
  pub paths : List (List ℕ)
  pub used_legacy : Bool

abbrev pub path_size : ℕ
path_size = 512

-- `record_source`: at most three paths.
abbrev pub record_source : List (List ℕ) → List ℕ → Option (List (List ℕ))
record_source paths path =
    if leb 3 (length paths) then none else some (paths ++ take (path_size - 1) path ∷ [])

-- A file parsed and its path recorded.
unfoldable pub load_file : Files → Loaded → List ℕ → ConfigLayer → Option Loaded
load_file files loaded path layer = elim (parse_path files loaded.config path layer) [
  | none ↦ none
  | some config ↦ elim (record_source loaded.paths path) [
    | none ↦ none
    | some paths ↦ some (record loaded { config = config; paths = paths })
  ]
]

abbrev pub project_path : List ℕ
project_path = codes "Polycallfile"

abbrev pub runtime_path : List ℕ
runtime_path = codes "Polycallrc"

abbrev pub legacy_path : List ℕ
legacy_path = codes ".polycallrc"

abbrev pub language_path : List ℕ → List ℕ
language_path name = take (path_size - 1) (codes "Polycallrc." ++ name)

abbrev pub load_runtime : Files → Loaded → Option Loaded
load_runtime files loaded =
    if file_exists files runtime_path
    then load_file files loaded runtime_path runtime
    else some loaded

abbrev pub mark_legacy : Loaded → Loaded
mark_legacy loaded = record loaded { used_legacy = true }

unfoldable pub load_language : Files → Loaded → Option (List ℕ) → Option Loaded
load_language files loaded none = some loaded
load_language files loaded (some name) =
    if not (valid_language name)
    then none
    else if file_exists files (language_path name)
    then load_file files loaded (language_path name) language
    else if file_exists files legacy_path
    then Option.map mark_legacy (load_file files loaded legacy_path language)
    else none

abbrev pub no_sources : Loaded
no_sources = record { config = zero_config; paths = []; used_legacy = false }

-- What is loaded, before the required fields are checked.
unfoldable pub load_layers : Files → Option (List ℕ) → Option Loaded
load_layers files name = elim (load_file files no_sources project_path project) [
  | none ↦ none
  | some base ↦ elim (load_runtime files base) [
    | none ↦ none
    | some loaded ↦ load_language files loaded name
  ]
]

unfoldable pub load_hierarchy : Files → Option (List ℕ) → Option Loaded
load_hierarchy files name = elim (load_layers files name) [
  | none ↦ none
  | some loaded ↦ if validate_required loaded.config true name then some loaded else none
]
