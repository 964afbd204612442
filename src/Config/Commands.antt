-- ===== src/Config/Commands.antt =====
-- The commands of `polycall config`: their exit codes, what they print and what they write. The
-- messages on the error stream are left out.
use libpolycall_v.Config.{project, runtime, language, PolycallConfig, ConfigLayer, zero_config}
use libpolycall_v.Prelude.{
  none, some, true, false, [], ◌∷◌, List, ℕ, Bool, if◌then◌else◌, Option, ◌==◌, decimal, codes,
  ◌||◌, ◌++◌, ◌+◌, not,
}
use libpolycall_v.Config.Load.{
  Files, parse_path, load_hierarchy, file_exists, valid_language, legacy_path, project_path,
  language_path, validate_required,
}
use libpolycall_v.Config.Text.{same_text}
use libpolycall_v.Config.Show.{show_config}

pub record Ran : Type 0 where
  pub code : ℕ
  pub output : List ℕ
  pub written : Option (List ℕ × List ℕ)

abbrev failed : Ran
failed = record { code = 1; output = []; written = none }

abbrev pub printed : List ℕ → Ran
printed output = record { code = 0; output = output; written = none }

-- The text behind the last separator of either kind.
unfoldable pub file_name : List ℕ → List ℕ → List ℕ
file_name [] name = name
file_name (c ∷ s) name = file_name s (if c == b'/' || c == b'\\' then s else name)

-- The text behind a prefix.
unfoldable pub behind : List ℕ → List ℕ → Option (List ℕ)
behind [] s = some s
behind (p ∷ ps) [] = none
behind (p ∷ ps) (c ∷ s) = if c == p then behind ps s else none

abbrev other_layer : List ℕ → Option (List ℕ) → ConfigLayer × Option (List ℕ)
other_layer name (some (c ∷ s)) = (language, some (c ∷ s))
other_layer name _ = if same_text name legacy_path then (language, none) else (runtime, none)

-- The layer of a path, and the language it names.
unfoldable pub infer_layer : List ℕ → ConfigLayer × Option (List ℕ)
infer_layer path =
    let name = file_name path path in
    if same_text name project_path
    then (project, none)
    else other_layer name (behind (codes "Polycallrc.") name)

abbrev pub is_project : ConfigLayer → Bool
is_project project = true
is_project _ = false

abbrev pub warnings_text : PolycallConfig → List ℕ
warnings_text config =
    if config.warnings == 0
    then 10 ∷ []
    else codes " with " ++ (decimal config.warnings ++ (codes " warning(s)" ++ 10 ∷ []))

unfoldable pub validate_one : Files → List ℕ → Ran
validate_one files path =
    let inferred = infer_layer path in
    elim (parse_path files zero_config path inferred.0) [
      | none ↦ failed
      | some config ↦
          if validate_required config (is_project inferred.0) inferred.1
          then printed (path ++ (codes " is valid" ++ warnings_text config))
          else failed
    ]

unfoldable pub numbered_paths : ℕ → List (List ℕ) → List ℕ
numbered_paths i [] = []
numbered_paths i (path ∷ paths) =
    decimal (i + 1) ++ (codes ". " ++ (path ++ 10 ∷ numbered_paths (i + 1) paths))

unfoldable pub load_and_report : Files → Option (List ℕ) → Bool → Ran
load_and_report files name show = elim (load_hierarchy files name) [
  | none ↦ failed
  | some loaded ↦ printed (
      if show
      then show_config loaded.config
      else codes "Loaded configuration in order:"
        ++ 10
          ∷ (numbered_paths 0 loaded.paths
              ++ (codes "Configuration is valid" ++ warnings_text loaded.config)))
]

abbrev selected_path : Files → List ℕ → Option (List ℕ)
selected_path files name =
    if file_exists files (language_path name)
    then some (language_path name)
    else if file_exists files legacy_path
    then some legacy_path
    else none

abbrev show_path : Files → List ℕ → Bool → List ℕ → Ran
show_path files name validate_only path = elim (parse_path files zero_config path language) [
  | none ↦ failed
  | some config ↦
      if validate_required config false (some name)
      then printed (
          if validate_only
          then path ++ (codes " is valid for " ++ (name ++ 10 ∷ []))
          else show_config config)
      else failed
]

unfoldable pub show_rc : Files → List ℕ → Bool → Ran
show_rc files name validate_only =
    if not (valid_language name) then failed else elim (selected_path files name) [
      | none ↦ failed
      | some path ↦ show_path files name validate_only path
    ]

-- The copy of a file that reads as a configuration of the language. `writable` says whether the
-- destination can be written.
abbrev copy_checked : Files → Bool → List ℕ → List ℕ → List ℕ → Ran
copy_checked files writable source destination name =
    elim (parse_path files zero_config source language) [
      | none ↦ failed
      | some config ↦
          if not (validate_required config false (some name)) || not writable
          then failed
          else elim (files source) [
            | none ↦ failed
            | some content ↦ record {
              code = 0;
              output = codes "Migrated " ++ (source ++ (codes " to " ++ (destination ++ 10 ∷ [])));
              written = some (destination, content);
            }
          ]
    ]

abbrev migrate_named : Files → Bool → List ℕ → List ℕ → ConfigLayer × Option (List ℕ) → Ran
migrate_named files writable source destination (language, some name) =
    if valid_language name then copy_checked files writable source destination name else failed
migrate_named files writable source destination _ = failed

unfoldable pub migrate_config : Files → Bool → List ℕ → List ℕ → Ran
migrate_config files writable source destination =
    if file_exists files destination
    then failed
    else migrate_named files writable source destination (infer_layer destination)

-- `print_config_usage`.
abbrev pub usage_text : List ℕ
usage_text =
    codes "PolyCall configuration commands:"
    ++ 10
      ∷ (codes "  polycall config load [language]"
          ++ 10
            ∷ (codes "  polycall config validate [path]"
                ++ 10
                  ∷ (codes "  polycall config show [language]"
                      ++ 10
                        ∷ (codes "  polycall config rc show <language>"
                            ++ 10
                              ∷ (codes "  polycall config rc validate <language>"
                                  ++ 10
                                    ∷ (codes
                                          "  polycall config migrate <source> <Polycallrc.language>"
                                        ++ 10 ∷ []))))))

abbrev pub usage : Ran
usage = record { code = 1; output = usage_text; written = none }

-- `config load` and `config show` with what follows them.
abbrev load_arguments : Files → Bool → List (List ℕ) → Ran
load_arguments files show [] = load_and_report files none show
load_arguments files show (name ∷ []) = load_and_report files (some name) show
load_arguments files show _ = usage

abbrev validate_arguments : Files → List (List ℕ) → Ran
validate_arguments files [] = load_and_report files none false
validate_arguments files (path ∷ []) = validate_one files path
validate_arguments files _ = usage

abbrev rc_arguments : Files → Bool → List (List ℕ) → Ran
rc_arguments files writable (action ∷ name ∷ []) =
    if same_text action (codes "show")
    then show_rc files name false
    else if same_text action (codes "validate")
    then show_rc files name true
    else usage
rc_arguments files writable (action ∷ source ∷ destination ∷ []) =
    if same_text action (codes "migrate")
    then migrate_config files writable source destination
    else usage
rc_arguments files writable _ = usage

abbrev migrate_arguments : Files → Bool → List (List ℕ) → Ran
migrate_arguments files writable (source ∷ destination ∷ []) =
    migrate_config files writable source destination
migrate_arguments files writable _ = usage

abbrev config_arguments : Files → Bool → List (List ℕ) → Ran
config_arguments files writable [] = usage
config_arguments files writable (command ∷ arguments) =
    if same_text command (codes "load")
    then load_arguments files false arguments
    else if same_text command (codes "validate")
    then validate_arguments files arguments
    else if same_text command (codes "show")
    then load_arguments files true arguments
    else if same_text command (codes "migrate")
    then migrate_arguments files writable arguments
    else if same_text command (codes "rc")
    then rc_arguments files writable arguments
    else usage

-- `polycall_config_cli`; `none` is the answer -1.
unfoldable pub config_cli : Files → Bool → List (List ℕ) → Option Ran
config_cli files writable (program ∷ first ∷ arguments) =
    if same_text first (codes "config")
    then some (config_arguments files writable arguments)
    else none
config_cli files writable _ = none
