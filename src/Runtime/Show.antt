-- ===== src/Runtime/Show.antt =====
-- What the console prints of the runtime.
use libpolycall_v.Machine.{StateMachine, State, Transition}
use libpolycall_v.Network.{NetworkEndpoint, NetworkProgram, ClientState}
use libpolycall_v.Prelude.{
  none, some, [], ◌∷◌, List, ℕ, Bool, if◌then◌else◌, codes, ◌++◌, length, Option, decimal, ◌+◌,
  take, text_of, ◌==◌, is_some,
}
use libpolycall_v.Runtime.{PpiRuntime}
use libpolycall_v.Network.Endpoint.{is_tcp}

abbrev pub newline : List ℕ
newline = 10 ∷ []

abbrev pub yes_or_no : Bool → List ℕ → List ℕ → List ℕ
yes_or_no b text other = if b then text else other

abbrev state_text : ℕ → State → List ℕ
state_text i s =
    codes "  "
    ++ (decimal i
        ++ (codes ": "
            ++ (text_of s.name
                ++ (codes " (locked: "
                    ++ (yes_or_no s.is_locked (codes "yes") (codes "no")
                        ++ (codes ")" ++ newline))))))

unfoldable pub states_text : ℕ → List State → List ℕ
states_text i [] = []
states_text i (s ∷ states) = state_text i s ++ states_text (i + 1) states

abbrev not_initialized : List ℕ
not_initialized = codes "State machine not initialized" ++ newline

abbrev pub list_states : PpiRuntime → List ℕ
list_states runtime = elim runtime.state_machine [
  | none ↦ not_initialized
  | some sm ↦
      newline ++ (codes "States:" ++ (newline ++ states_text 0 (take sm.num_states sm.states)))
]

abbrev transition_text : Transition → List ℕ
transition_text t =
    codes "  "
    ++ (text_of t.name
        ++ (codes ": "
            ++ (decimal t.from_state ++ (codes " -> " ++ (decimal t.to_state ++ newline)))))

unfoldable pub transitions_text : List Transition → List ℕ
transitions_text [] = []
transitions_text (t ∷ transitions) = transition_text t ++ transitions_text transitions

abbrev pub list_transitions : PpiRuntime → List ℕ
list_transitions runtime = elim runtime.state_machine [
  | none ↦ not_initialized
  | some sm ↦
      newline
      ++ (codes "Transitions:"
          ++ (newline ++ transitions_text (take sm.num_transitions sm.transitions)))
]

unfoldable pub history_text : ℕ → List (List ℕ) → List ℕ
history_text i [] = []
history_text i (command ∷ commands) =
    codes "  "
    ++ (decimal (i + 1) ++ (codes ": " ++ (command ++ (newline ++ history_text (i + 1) commands))))

abbrev pub show_history : PpiRuntime → List ℕ
show_history runtime =
    newline ++ (codes "Command History:" ++ (newline ++ history_text 0 runtime.command_history))

abbrev endpoint_text : ℕ → NetworkEndpoint → List ℕ
endpoint_text j ep =
    codes "  Endpoint "
    ++ (decimal j
        ++ (codes ": "
            ++ (ep.address
                ++ (codes ":"
                    ++ (decimal ep.port
                        ++ (codes " ("
                            ++ (yes_or_no (is_tcp ep.protocol) (codes "TCP") (codes "UDP")
                                ++ (codes ")" ++ newline))))))))

unfoldable pub endpoints_text : ℕ → List NetworkEndpoint → List ℕ
endpoints_text j [] = []
endpoints_text j (ep ∷ endpoints) = endpoint_text j ep ++ endpoints_text (j + 1) endpoints

abbrev heading : ℕ → List ℕ → List ℕ
heading i title = newline ++ (codes "Program " ++ (decimal i ++ (title ++ newline)))

-- A program without endpoints has no heading.
unfoldable pub list_endpoints : ℕ → List NetworkProgram → List ℕ
list_endpoints i [] = []
list_endpoints i (program ∷ programs) =
    (if length program.endpoints == 0
      then []
      else heading i (codes " Endpoints:") ++ endpoints_text 0 program.endpoints)
    ++ list_endpoints (i + 1) programs

unfoldable pub clients_text : ℕ → List ClientState → List ℕ
clients_text j [] = []
clients_text j (c ∷ clients) =
    (if c.is_active
      then codes "  Client " ++ (decimal j ++ (codes ": Connected" ++ newline))
      else [])
    ++ clients_text (j + 1) clients

unfoldable pub list_clients : ℕ → List NetworkProgram → List ℕ
list_clients i [] = []
list_clients i (program ∷ programs) =
    heading i (codes " Clients:")
    ++ (clients_text 0 program.clients ++ list_clients (i + 1) programs)

abbrev current_state_text : Option StateMachine → List ℕ
current_state_text none = []
current_state_text (some sm) = codes "  Current State: " ++ (decimal sm.current_state ++ newline)

abbrev pub show_status : PpiRuntime → List ℕ
show_status runtime =
    newline
    ++ (codes "System Status:"
        ++ (newline
            ++ (codes "  State Machine: "
                ++ (yes_or_no (is_some runtime.state_machine) (codes "Initialized")
                      (codes "Not initialized")
                    ++ (newline
                        ++ (codes "  Network Programs: "
                            ++ (decimal (length runtime.programs)
                                ++ (newline
                                    ++ (codes "  Running: "
                                        ++ (yes_or_no runtime.running (codes "Yes") (codes "No")
                                            ++ (newline
                                                ++ (current_state_text runtime.state_machine
                                                    ++ (list_endpoints 0 runtime.programs
                                                        ++ list_clients 0
                                                            runtime.programs)))))))))))))
