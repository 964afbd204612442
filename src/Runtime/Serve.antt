-- ===== src/Runtime/Serve.antt =====
-- The program without a console: its start, its configuration file, its rounds and its end.
use libpolycall_v.Context.{PolycallStatus, success, Config, init_with_config}
use libpolycall_v.Network.Run.{Answers, net_run}
use libpolycall_v.Network.{Event, NetworkProgram}
use libpolycall_v.Prelude.{
  none, some, true, false, [], ◌∷◌, List, ℕ, Bool, if◌then◌else◌, Option, ◌*◌, ◌==◌, ◌||◌, text_of,
  ◌+◌, codes, length, ◌++◌, ◌&&◌,
}
use libpolycall_v.Runtime.{
  went, PpiRuntime, started, configure_network_port, with_handlers, Attempt, followed_by,
}
use libpolycall_v.Config.Text.{same_text}
use libpolycall_v.Config.Lines.{scan_word}
use libpolycall_v.Runtime.Services.{file_lines, scan_ports}
use libpolycall_v.Network.Clients.{net_cleanup_program}
use libpolycall_v.Runtime.Ports.{program_on}

-- The file behind `-f` among the arguments; the last one counts.
unfoldable pub config_argument : Option (List ℕ) → List (List ℕ) → Option (List ℕ)
config_argument found [] = found
config_argument found (a ∷ []) = found
config_argument found (a ∷ b ∷ arguments) =
    let taken = config_argument (some b) arguments in
    let passed = config_argument found (b ∷ arguments) in
    if same_text a (codes "-f") then taken else passed

abbrev pub runtime_config : Config
runtime_config = record { flags = 0; memory_pool_size = 1024 * 1024; user_data = 0 }

abbrev pub running_on : PpiRuntime → ℕ → PolycallStatus → Option PpiRuntime
running_on runtime pc_ctx success =
    some (record runtime { pc_ctx = pc_ctx; state_machine = none; running = true })
running_on runtime pc_ctx _ = none

-- `initialize_runtime` outside Windows; `pc_ctx` is the address of the context.
unfoldable pub initialize_runtime : Bool → ℕ → PpiRuntime → Option PpiRuntime
initialize_runtime allocated pc_ctx runtime =
    running_on runtime pc_ctx (init_with_config true (some runtime_config) allocated).1

-- The loop over the configuration file: the runtime, `port_number` and `network_started`.
pub record ServeState : Type 0 where
  pub runtime : PpiRuntime
  pub port_number : ℕ
  pub network_started : Bool

abbrev pub is_line_end : ℕ → Bool
is_line_end c = c == 10 || c == 13

abbrev pub keep_unless_end : ℕ → List ℕ → List ℕ
keep_unless_end c [] = if is_line_end c then [] else c ∷ []
keep_unless_end c (d ∷ s) = c ∷ d ∷ s

unfoldable pub without_line_end : List ℕ → List ℕ
without_line_end [] = []
without_line_end (c ∷ s) = keep_unless_end c (without_line_end s)

-- `%31s %255s`, both of them.
unfoldable pub scan_setting : List ℕ → Option (List ℕ × List ℕ)
scan_setting s =
    let first = scan_word 31 s in
    let second = scan_word 255 first.1 in
    if length first.0 == 0 || length second.0 == 0 then none else some (first.0, second.0)

abbrev pub port_set : ServeState → Option (ℕ × Option ℕ) → ServeState
port_set s (some (host, some container)) = record s { port_number = container }
port_set s _ = s

abbrev pub network_set : ServeState → Option NetworkProgram → Attempt ServeState
network_set s none = went s
network_set s (some program) =
    followed_by (started s.runtime (with_handlers program))
      (λ next. went (record s { runtime = next; network_started = true }))

abbrev pub setting_done :
    Option NetworkProgram → ServeState → Option (List ℕ × List ℕ) → Attempt ServeState
setting_done program s none = went s
setting_done program s (some (cmd, value)) =
    if same_text cmd (codes "port")
    then went (port_set s (scan_ports value))
    else if same_text cmd (codes "network") && same_text value (codes "start")
    then network_set s (program_on program s.port_number)
    else went s

-- `program` is what `net_init_program` leaves, if there was memory for it.
unfoldable pub serve_line : Option NetworkProgram → ServeState → List ℕ → Attempt ServeState
serve_line program s raw = elim (without_line_end (text_of raw)) [
  | [] ↦ went s
  | c ∷ text ↦ if c == b'#' then went s else setting_done program s (scan_setting (c ∷ text))
]

unfoldable pub serve_lines :
    (ℕ → Option NetworkProgram) → ℕ → ServeState → List (List ℕ) → Attempt ServeState
serve_lines programs n s [] = went s
serve_lines programs n s (raw ∷ raws) =
    followed_by (serve_line (programs n) s raw) (λ next. serve_lines programs (n + 1) next raws)

abbrev pub serve_file : (ℕ → Option NetworkProgram) → PpiRuntime → List ℕ → Attempt ServeState
serve_file programs runtime file =
    serve_lines programs 0
      (record { runtime = runtime; port_number = 8080; network_started = false }) (file_lines file)

abbrev pub run_if : Answers → NetworkProgram → Option NetworkProgram → NetworkProgram × List Event
run_if os program none = (program, [])
run_if os program (some next) = net_run os next

-- One round of the loop over all the programs.
unfoldable pub run_programs :
    (ℕ → Answers) → ℕ → ℕ → List NetworkProgram → List NetworkProgram × List Event
run_programs os port i [] = ([], [])
run_programs os port i (program ∷ programs) =
    let one = run_if (os i) program (configure_network_port program port) in
    let rest = run_programs os port (i + 1) programs in (one.0 ∷ rest.0, one.1 ++ rest.1)

unfoldable pub cleanup_programs : List NetworkProgram → List Event
cleanup_programs [] = []
cleanup_programs (program ∷ programs) = (net_cleanup_program program).1 ++ cleanup_programs programs

-- `cleanup_runtime`: what is freed is gone.
unfoldable pub cleanup_runtime : PpiRuntime → PpiRuntime × List Event
cleanup_runtime runtime = (
  record runtime { programs = []; state_machine = none; pc_ctx = 0 },
  cleanup_programs runtime.programs,
)
