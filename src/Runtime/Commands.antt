-- ===== src/Runtime/Commands.antt =====
-- The commands of the console. What they print and the sockets they close are left out here.
use libpolycall_v.Machine.Default.{Callbacks}
use libpolycall_v.Machine.{Status, success, StateMachine}
use libpolycall_v.Prelude.{
  none, some, true, false, [], ◌∷◌, List, ℕ, Bool, if◌then◌else◌, Option, ◌==◌, drop_while, codes,
  ◌++◌, ◌+◌, length, ◌||◌, text_of, take_while, not, drop,
}
use libpolycall_v.Runtime.{went, overran, PpiRuntime, started, with_handlers, Attempt}
use libpolycall_v.Network.{NetworkProgram}
use libpolycall_v.Machine.Build.{add_state, create_with_integrity}
use libpolycall_v.Config.Text.{same_text, cut}
use libpolycall_v.Runtime.History.{add_to_history}

-- What the system gives to a command: the program as `net_init_program` leaves it, whether
-- `calloc` gives a state machine, and the clock as the command reads it, time after time.
pub record CommandAnswers : Type 0 where
  pub program : Option NetworkProgram
  pub allocated : Bool
  pub now : ℕ → ℕ

abbrev pub is_blank : ℕ → Bool
is_blank c = c == b' '

-- `strtok(s, " ")`: the token, and the text that the next call goes on with.
unfoldable pub strtok : List ℕ → Option (List ℕ × List ℕ)
strtok s =
    let t = drop_while is_blank s in
    if length t == 0
    then none
    else some (take_while (λ c. not (is_blank c)) t, drop 1 (drop_while (λ c. not (is_blank c)) t))

abbrev pub first_of : Option (List ℕ × List ℕ) → Option (List ℕ)
first_of none = none
first_of (some (token, rest)) = some token

-- A state added, whatever the status.
abbrev with_state : StateMachine → List ℕ → ℕ → Bool → ℕ → StateMachine
with_state sm name on_enter is_final now = (add_state sm (some name) on_enter 0 is_final now).0

abbrev pub with_default_states : Callbacks → (ℕ → ℕ) → StateMachine → StateMachine
with_default_states callbacks now sm =
    let one = with_state sm (codes "INIT") callbacks.on_init false (now 1) in
    let two = with_state one (codes "READY") callbacks.on_ready false (now 2) in
    let three = with_state two (codes "RUNNING") callbacks.on_running false (now 3) in
    let four = with_state three (codes "PAUSED") callbacks.on_paused false (now 4) in
    with_state four (codes "ERROR") callbacks.on_error true (now 5)

abbrev pub created :
    CommandAnswers → Callbacks → PpiRuntime → Option StateMachine → PpiRuntime × Bool
created os callbacks runtime none = (runtime, false)
created os callbacks runtime (some sm) =
    (record runtime { state_machine = some (with_default_states callbacks os.now sm) }, true)

unfoldable pub cmd_init : CommandAnswers → Callbacks → PpiRuntime → PpiRuntime × Bool
cmd_init os callbacks runtime = elim runtime.state_machine [
  | some sm ↦ (runtime, false)
  | none ↦
      created os callbacks runtime
        (create_with_integrity runtime.pc_ctx true none os.allocated (os.now 0)).0
]

abbrev pub is_success : Status → Bool
is_success success = true
is_success _ = false

abbrev pub after_add : PpiRuntime → StateMachine × Status → PpiRuntime × Bool
after_add runtime (sm, status) = (record runtime { state_machine = some sm }, is_success status)

unfoldable pub cmd_add_state : CommandAnswers → PpiRuntime → Option (List ℕ) → PpiRuntime × Bool
cmd_add_state os runtime name = elim runtime.state_machine [
  | none ↦ (runtime, false)
  | some sm ↦ elim name [
    | none ↦ (runtime, false)
    | some text ↦ after_add runtime (add_state sm (some text) 0 0 false (os.now 0))
  ]
]

abbrev pub cmd_quit : PpiRuntime → PpiRuntime × Bool
cmd_quit runtime = (record runtime { running = false }, true)

abbrev pub cmd_help : PpiRuntime → PpiRuntime × Bool
cmd_help runtime = (runtime, true)

-- The table of commands: none for an unknown name.
unfoldable pub handle :
    CommandAnswers → Callbacks → PpiRuntime → List ℕ → Option (List ℕ) → Option (PpiRuntime × Bool)
handle os callbacks runtime command arg1 =
    if same_text command (codes "init")
    then some (cmd_init os callbacks runtime)
    else if same_text command (codes "add_state")
    then some (cmd_add_state os runtime arg1)
    else if same_text command (codes "help")
    then some (cmd_help runtime)
    else if same_text command (codes "quit")
    then some (cmd_quit runtime)
    else none

abbrev pub runtime_after : PpiRuntime → Option (PpiRuntime × Bool) → PpiRuntime
runtime_after runtime none = runtime
runtime_after runtime (some (next, ok)) = next

abbrev pub processed :
    CommandAnswers → Callbacks → PpiRuntime → Option (List ℕ × List ℕ) → PpiRuntime
processed os callbacks runtime none = runtime
processed os callbacks runtime (some (command, rest)) =
    runtime_after runtime (handle os callbacks runtime command (first_of (strtok rest)))

unfoldable pub process_command : CommandAnswers → Callbacks → PpiRuntime → List ℕ → PpiRuntime
process_command os callbacks runtime input = processed os callbacks runtime (strtok input)

abbrev pub start_network : PpiRuntime → Option NetworkProgram → Attempt PpiRuntime
start_network runtime none = went runtime
start_network runtime (some program) =
    if length program.endpoints == 0 then went runtime else started runtime (with_handlers program)

abbrev pub stop_network : PpiRuntime → PpiRuntime
stop_network runtime = record runtime { programs = [] }

-- A command of the console; `input` is the line as `strtok` left it, cut behind the command.
unfoldable pub console_command :
    CommandAnswers → Callbacks → PpiRuntime → List ℕ → Option (List ℕ) → List ℕ → Attempt PpiRuntime
console_command os callbacks runtime command arg1 input =
    if same_text command (codes "start_network")
    then start_network runtime os.program
    else if same_text command (codes "stop_network")
    then went (stop_network runtime)
    else if same_text command (codes "list_endpoints")
        || same_text command (codes "list_clients")
        || same_text command (codes "list_states")
        || same_text command (codes "list_transitions")
        || same_text command (codes "history")
        || same_text command (codes "status")
    then went runtime
    else if same_text command (codes "add_state")
    then went (cmd_add_state os runtime arg1).0
    else went (process_command os callbacks runtime input)

abbrev pub remembered : PpiRuntime → List ℕ → PpiRuntime
remembered runtime input = record runtime {
  command_history = add_to_history runtime.command_history input;
}

abbrev pub defined_part {ℓ} : {A : Type ℓ} → Attempt A → Option A
defined_part (went a) = some a
defined_part (overran runtime) = none

abbrev pub console_tokens :
    CommandAnswers → Callbacks → PpiRuntime → List ℕ → Option (List ℕ × List ℕ) → Option PpiRuntime
console_tokens os callbacks runtime lead none = none
console_tokens os callbacks runtime lead (some (command, rest)) = defined_part (
    console_command os callbacks (remembered runtime (lead ++ command)) command
      (first_of (strtok rest)) (lead ++ command))

-- A line of the console. None is the `strcmp` of a NULL or a write past the array of programs,
-- which have no defined behaviour.
unfoldable pub console_line : CommandAnswers → Callbacks → PpiRuntime → List ℕ → Option PpiRuntime
console_line os callbacks runtime raw =
    let line = (cut 10 (text_of raw)).0 in
    if length line == 0
    then some runtime
    else console_tokens os callbacks runtime (take_while is_blank line) (strtok line)

-- The loop of the console over the lines that `fgets` reads.
unfoldable pub console_lines :
    (ℕ → CommandAnswers) → ℕ → Callbacks → PpiRuntime → List (List ℕ) → Option PpiRuntime
console_lines os n callbacks runtime [] = some runtime
console_lines os n callbacks runtime (raw ∷ raws) = elim runtime.running [
  | false ↦ some runtime
  | true ↦ elim (console_line (os n) callbacks runtime raw) [
    | none ↦ none
    | some next ↦ console_lines os (n + 1) callbacks next raws
  ]
]
