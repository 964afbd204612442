-- ===== src/Runtime/Services.antt =====
-- The services that a configuration file and the directories of a base path give.
use mathlib.Core.Option
use libpolycall_v.Prelude.{
  none, some, true, false, [], ◌∷◌, List, ℕ, Bool, if◌then◌else◌, Option, ◌+◌, ◌==◌, ◌%◌, codes,
  ltb, ◌||◌, text_of, ◌&&◌, not, length, take, leb,
}
use libpolycall_v.Config.Commands.{behind}
use libpolycall_v.Config.Lines.{chunks, scan_word}
use libpolycall_v.Config.Text.{same_text, strtoul}
use libpolycall_v.Runtime.{went, PpiRuntime, Attempt, followed_by}
use libpolycall_v.Runtime.Ports.{MappingAnswers, add_port_mapping}

-- `%hu`: a number of 16 bits, of the number that `strtoul` reads.
abbrev pub short_of : Option (ℕ × List ℕ × Bool) → Option (ℕ × List ℕ)
short_of none = none
short_of (some (n, rest, overflow)) = some (if overflow then 65535 else n % 65536, rest)

abbrev pub scan_short : List ℕ → Option (ℕ × List ℕ)
scan_short s = short_of (strtoul s)

abbrev pub container_of : List ℕ → Option ℕ
container_of [] = none
container_of (c ∷ s) = if c == b':' then Option.map (λ r. r.0) (scan_short s) else none

abbrev pub ports_behind : Option (ℕ × List ℕ) → Option (ℕ × Option ℕ)
ports_behind none = none
ports_behind (some (host, rest)) = some (host, container_of rest)

-- `%hu:%hu`: the numbers that are assigned.
unfoldable pub scan_ports : List ℕ → Option (ℕ × Option ℕ)
scan_ports s = ports_behind (scan_short s)

-- Two variables after the scan.
abbrev pub assigned_ports : ℕ × ℕ → Option (ℕ × Option ℕ) → ℕ × ℕ
assigned_ports (host, container) none = (host, container)
assigned_ports (host, container) (some (h, none)) = (h, container)
assigned_ports (host, container) (some (h, some c)) = (h, c)

-- The first line that begins with `port=` decides.
unfoldable pub service_ports : ℕ × ℕ → List (List ℕ) → ℕ × ℕ
service_ports ports [] = ports
service_ports ports (line ∷ lines) = elim (behind (codes "port=") (text_of line)) [
  | some s ↦ assigned_ports ports (scan_ports s)
  | none ↦ service_ports ports lines
]

-- An entry of the base directory: the configuration file in it, if it can be opened, and what the
-- system gives to its mapping.
pub record ServiceEntry : Type 0 where
  pub name : List ℕ
  pub is_directory : Bool
  pub config : Option (List ℕ)
  pub answers : MappingAnswers

-- The successive results of `fgets` with a buffer of 256.
abbrev pub file_lines : List ℕ → List (List ℕ)
file_lines file = chunks 255 255 file

abbrev pub is_passed_over : List ℕ → ServiceEntry → Bool
is_passed_over base_path entry =
    same_text entry.name (codes ".")
    || same_text entry.name (codes "..")
    || not entry.is_directory
    || leb 600 (length base_path + 1 + length entry.name + 1 + length (codes ".polycallrc"))

abbrev pub count_if : Bool → ℕ → ℕ
count_if b n = if b then n + 1 else n

abbrev pub add_service : ServiceEntry → ℕ × ℕ → PpiRuntime → Attempt (PpiRuntime × Bool)
add_service entry (host, container) runtime =
    add_port_mapping entry.answers runtime (some entry.name) host container

-- The ports of an entry with a configuration file, from the default ones on.
abbrev pub entry_ports : ℕ → List ℕ → ℕ × ℕ
entry_ports found file =
    service_ports ((3000 + found) % 65536, (8080 + found) % 65536) (file_lines file)

abbrev pub discovered : PpiRuntime → ℕ → ServiceEntry → Option (List ℕ) → Attempt (PpiRuntime × ℕ)
discovered runtime found entry none = went (runtime, found)
discovered runtime found entry (some file) =
    followed_by (add_service entry (entry_ports found file) runtime)
      (λ result. went (result.0, count_if result.1 found))

unfoldable pub discover_entry : List ℕ → PpiRuntime × ℕ → ServiceEntry → Attempt (PpiRuntime × ℕ)
discover_entry base_path (runtime, found) entry =
    if is_passed_over base_path entry
    then went (runtime, found)
    else discovered runtime found entry entry.config

unfoldable pub discover_from :
    List ℕ → PpiRuntime × ℕ → List ServiceEntry → Attempt (PpiRuntime × ℕ)
discover_from base_path state [] = went state
discover_from base_path state (entry ∷ entries) =
    followed_by (discover_entry base_path state entry)
      (λ next. discover_from base_path next entries)

-- `discover_and_init_services`; none when the directory cannot be opened.
abbrev pub discover_and_init_services :
    List ℕ → Option (List ServiceEntry) → PpiRuntime → Attempt (PpiRuntime × Bool)
discover_and_init_services base_path none runtime = went (runtime, false)
discover_and_init_services base_path (some entries) runtime =
    followed_by (discover_from base_path (runtime, 0) entries)
      (λ result. went (result.0, ltb 0 result.1))

abbrev pub both_scanned : List ℕ → Option (ℕ × Option ℕ) → Option (List ℕ × ℕ × ℕ)
both_scanned service (some (host, some container)) = some (service, host, container)
both_scanned service _ = none

abbrev pub service_behind : Option (List ℕ) → Option (List ℕ × ℕ × ℕ)
service_behind none = none
service_behind (some s) =
    let word = scan_word 31 s in
    if length word.0 == 0 then none else both_scanned word.0 (scan_ports word.1)

-- `server %31s %hu:%hu`, all three of them.
unfoldable pub scan_service : List ℕ → Option (List ℕ × ℕ × ℕ)
scan_service line = service_behind (behind (codes "server") line)

abbrev pub is_comment : List ℕ → Bool
is_comment [] = false
is_comment (c ∷ s) = c == b'#' || c == 10

abbrev pub service_line : MappingAnswers → PpiRuntime → Option (List ℕ × ℕ × ℕ) → Attempt PpiRuntime
service_line os runtime none = went runtime
service_line os runtime (some (service, host, container)) =
    followed_by (add_port_mapping os runtime (some service) host container) (λ r. went r.0)

unfoldable pub config_file_line : MappingAnswers → PpiRuntime → List ℕ → Attempt PpiRuntime
config_file_line os runtime line =
    if is_comment line then went runtime else service_line os runtime (scan_service (text_of line))

unfoldable pub config_file_lines :
    (ℕ → MappingAnswers) → ℕ → PpiRuntime → List (List ℕ) → Attempt PpiRuntime
config_file_lines os n runtime [] = went runtime
config_file_lines os n runtime (line ∷ lines) =
    followed_by (config_file_line (os n) runtime line)
      (λ next. config_file_lines os (n + 1) next lines)

-- `process_config_file` on the file's content; none when it cannot be opened.
abbrev pub process_config_file :
    (ℕ → MappingAnswers) → Option (List ℕ) → PpiRuntime → Attempt (PpiRuntime × Bool)
process_config_file os none runtime = went (runtime, false)
process_config_file os (some file) runtime =
    followed_by (config_file_lines os 0 runtime (file_lines file)) (λ next. went (next, true))

-- What there is under the base path: a directory that can be opened, or not.
pub record BasePath : Type 0 where
  pub path : Option (List ℕ)
  pub is_directory : Bool
  pub opens : Bool

abbrev pub init_directory_control : BasePath → Option (List ℕ)
init_directory_control base = elim base.path [
  | none ↦ none
  | some path ↦ if base.is_directory && base.opens then some (take 255 path) else none
]

-- A configuration file that is not named is not read.
abbrev pub configured_by :
    (ℕ → MappingAnswers) → Option (Option (List ℕ)) → PpiRuntime → Attempt PpiRuntime
configured_by os none runtime = went runtime
configured_by os (some file) runtime =
    followed_by (process_config_file os file runtime) (λ r. went r.0)

abbrev pub init_under :
    (ℕ → MappingAnswers)
    → Option (Option (List ℕ))
    → Option (List ServiceEntry)
    → PpiRuntime
    → Option (List ℕ)
    → Attempt (PpiRuntime × Bool)
init_under os config_file entries runtime none = went (runtime, false)
init_under os config_file entries runtime (some path) =
    followed_by (configured_by os config_file runtime) (λ configured.
      followed_by (discover_and_init_services path entries configured)
        (λ result. went (result.0, true)))

-- `polycall_init_with_directory`.
unfoldable pub init_with_directory :
    (ℕ → MappingAnswers)
    → BasePath
    → Option (Option (List ℕ))
    → Option (List ServiceEntry)
    → PpiRuntime
    → Attempt (PpiRuntime × Bool)
init_with_directory os base config_file entries runtime =
    init_under os config_file entries runtime (init_directory_control base)
