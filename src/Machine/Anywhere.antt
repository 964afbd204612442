-- ===== src/Machine/Anywhere.antt =====
-- The state that a machine is in plays no part in executing a transition.
use libpolycall_v.Prelude.{refl, none, some, ℕ, ◌≡◌, Option, List, arith, take}
use libpolycall_v.Machine.Execute.{
  execute_found, execute_transition, Executed, follow, find_transition,
}
use libpolycall_v.Machine.{StateMachine, success, Transition}

abbrev pub at_state : ℕ → StateMachine → StateMachine
at_state c sm = record sm { current_state = c }

-- Two results differ in nothing but the current state of a machine that did not move.
abbrev pub Alike : Executed → Executed → Type 0
Alike r q =
    (q.status ≡ r.status)
    × (q.calls ≡ r.calls)
    × (r.status ≡ success → q.machine ≡ r.machine)
    × (q.machine ≡ at_state q.machine.current_state r.machine)

execute_found_anywhere :
    (sm : StateMachine) (c : ℕ) (t : Option Transition) (now : ℕ)
    → Alike (execute_found sm t now) (execute_found (at_state c sm) t now)
unfolding execute_found follow
execute_found_anywhere sm c none now = (refl, refl, λ h. ground arith, refl)
execute_found_anywhere sm c (some t) now =
    (ground arith, ground arith, λ h. ground arith, ground arith)

-- Execution does not ask whether the machine is in the transition's source state: from any
-- state the same name gives the same status and the same calls, and on success the same
-- machine.
pub execute_transition_anywhere :
    (sm : StateMachine) (c : ℕ) (name : Option (List ℕ)) (now : ℕ)
    → Alike (execute_transition sm name now) (execute_transition (at_state c sm) name now)
unfolding execute_transition
execute_transition_anywhere sm c none now = (refl, refl, λ h. ground arith, refl)
execute_transition_anywhere sm c (some name) now =
    let found = find_transition (take sm.num_transitions sm.transitions) name in
    let alike = execute_found_anywhere sm c found now in
    (
      ground (arith, alike),
      ground (arith, alike),
      λ h. ground (arith, alike),
      ground (arith, alike),
    )
