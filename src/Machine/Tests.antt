-- ===== src/Machine/Tests.antt =====
-- Runs of a small machine, and the theorems at it.
use libpolycall_v.Prelude.{
  refl, none, some, false, zero, suc, [], ◌∷◌, List, ℕ, codes, ◌<◌, ◌≡◌, set, arith, strcmp_eq,
  store_name, drop, ◌+◌,
}
use libpolycall_v.Machine.{
  success, State, state_bytes, Transition, calculate_state_checksum, StateMachine,
}
use libpolycall_v.Machine.Execute.{execute_transition, find_transition, execute_found, follow}
use libpolycall_v.Machine.Default.{Callbacks}
use libpolycall_v.Machine.Run.{Request, run, adds_state, step, executes, adds_transition}
use libpolycall_v.Machine.Invariant.{IsValid, state_at, transition_at, new_machine-IsValid}
use libpolycall_v.Machine.Integrity.{verify_state_integrity}
use libpolycall_v.Machine.Snapshot.{
  StateSnapshot, create_state_snapshot, restore_state_from_snapshot, restore_snapshot,
}
use libpolycall_v.Machine.Found.{IsFirst}
use libpolycall_v.Machine.Anywhere.{Alike, at_state, execute_transition_anywhere}
use libpolycall_v.Machine.Preserved.{run-IsValid}
use libpolycall_v.Machine.Build.{
  new_machine, add_transition, add_state, add_named_state, add_named_transition, initialized_state,
  initialized_transition,
}
use libpolycall_v.Machine.Executed.{
  IsEnabled, refused, taken, execute_transition_failure, execute_transition_enabled,
  execute_transition_success,
}
use libpolycall_v.Machine.Started.{default_machine, initialize_state_machine_lem}
use libpolycall_v.Machine.Verified.{
  verify_state_integrity-run, refuse, verify_state_integrity_detects,
}
use libpolycall_v.Machine.Restored.{restore_only_current}
use libpolycall_v.Machine.Named.{execute_transition-add_transition, execute_transition_long}

abbrev handlers : Callbacks
handlers = record { on_init = 16; on_ready = 32; on_running = 48; on_paused = 64; on_error = 80 }

-- Two states joined by one transition.
abbrev requests : List Request
requests =
    adds_state (some (codes "A")) 16 32 false 5
    ∷ adds_state (some (codes "B")) 48 0 false 6
    ∷ adds_transition (some (codes "go")) 0 1 64 none
    ∷ []

pair : StateMachine
unfolding run step add_state add_named_state add_transition add_named_transition initialized_state
    initialized_transition execute_transition find_transition execute_found follow strcmp_eq
    store_name calculate_state_checksum verify_state_integrity create_state_snapshot
    restore_state_from_snapshot restore_snapshot
pair = run (new_machine 7 none 1) requests

pair-IsValid : IsValid pair
unfolding pair
pair-IsValid = run-IsValid requests (tt, (tt, (tt, tt))) (new_machine-IsValid 7 none 1)

-- The exit action of A, the transition's, and the entry action of B.
pair_goes :
    (execute_transition pair (some (codes "go")) 9).calls
    ≡ record { action = 32; ctx = 7 }
      ∷ record { action = 64; ctx = 7 }
      ∷ record { action = 48; ctx = 7 }
      ∷ []
unfolding pair
pair_goes = refl

run-IsValid_example : IsValid (run (new_machine 7 none 1) requests)
run-IsValid_example = run-IsValid requests (tt, (tt, (tt, tt))) (new_machine-IsValid 7 none 1)

verify_state_integrity-run_example : verify_state_integrity pair 1 ≡ (pair, success)
unfolding pair
verify_state_integrity-run_example =
    verify_state_integrity-run 7 none 1 requests 1 (tt, (tt, (tt, tt))) (omega arith)

-- The first byte of the name of state A overwritten.
abbrev renamed : State
renamed = record (state_at pair 0) { name = set (state_at pair 0).name 0 b'X' }

verify_state_integrity_detects_example :
    verify_state_integrity (record pair { states = set pair.states 0 renamed }) 0
    ≡ refuse (record pair { states = set pair.states 0 renamed })
unfolding pair state_bytes
verify_state_integrity_detects_example =
    verify_state_integrity_detects pair 0 renamed [] b'A' b'X' (drop 1 (state_bytes renamed))
      pair-IsValid (omega arith) refl refl refl (omega arith) (omega arith) (omega arith)

abbrev snapshot_of_a : StateSnapshot
snapshot_of_a = record {
  state = state_at pair 0;
  timestamp = 8;
  checksum = calculate_state_checksum (state_at pair 0);
}

restore_only_current_example :
    state_at (run pair (executes (some (codes "go")) 9 ∷ [])) 0 ≡ state_at pair 0
unfolding pair
restore_only_current_example =
    (restore_only_current pair 0 8 10 snapshot_of_a (executes (some (codes "go")) 9 ∷ [])
      pair-IsValid (omega arith) (omega arith) refl (omega arith) refl).0

abbrev go : Transition
go = transition_at pair 0

go-IsFirst : IsFirst pair.transitions pair.num_transitions (codes "go") go 0
unfolding pair
go-IsFirst = record {
  below = omega arith;
  here = refl;
  named = refl;
  earlier = λ j h. absurd (omega arith);
}

execute_transition_enabled_example : execute_transition pair (some (codes "go")) 9 ≡ taken pair go 9
unfolding pair
execute_transition_enabled_example =
    execute_transition_enabled pair (codes "go") 9 0 go pair-IsValid go-IsFirst
      (record { valid = refl; from_free = refl; to_free = refl; accepted = refl })

execute_transition_success_example :
    (t : Transition) × (i : ℕ) × IsFirst pair.transitions pair.num_transitions (codes "go") t i
    × IsEnabled pair t
    × (execute_transition pair (some (codes "go")) 9 ≡ taken pair t 9)
unfolding pair
execute_transition_success_example =
    execute_transition_success pair (codes "go") 9 pair-IsValid refl

execute_transition_failure_example :
    (execute_transition pair (some (codes "stop")) 9).machine.states ≡ pair.states
unfolding pair
execute_transition_failure_example =
    (execute_transition_failure pair (some (codes "stop")) 9 (λ e. cc)).1

execute_transition_anywhere_example :
    Alike
      (execute_transition pair (some (codes "go")) 9)
      (execute_transition (at_state 1 pair) (some (codes "go")) 9)
execute_transition_anywhere_example = execute_transition_anywhere pair 1 (some (codes "go")) 9

-- 35 characters.
abbrev long_name : List ℕ
long_name = codes "a_transition_with_a_very_long_name_"

execute_transition_long_example : execute_transition pair (some long_name) 9 ≡ refused pair
execute_transition_long_example =
    execute_transition_long pair long_name 9 pair-IsValid (omega arith) (omega arith)

only_go :
    (j : ℕ)
    → j < pair.num_transitions
    → strcmp_eq (transition_at pair j).name (codes "back") ≡ false
unfolding pair
only_go zero h = refl
only_go (suc j) h = absurd (omega arith)

execute_transition-add_transition_example :
    (execute_transition
      (add_transition pair (some (codes "back")) 1 0 0 none).0
      (some (codes "back"))
      9).status
    ≡ success
unfolding pair
execute_transition-add_transition_example =
    (execute_transition-add_transition pair (codes "back") 1 0 0 none 9 pair-IsValid (omega arith)
      (omega arith) (omega arith) (omega arith) (omega arith) only_go refl refl refl).0

initialize_state_machine_lem_example : IsValid (default_machine handlers 4096 (λ n. 100 + n))
initialize_state_machine_lem_example =
    (initialize_state_machine_lem handlers 4096 (λ n. 100 + n) (omega arith)).1
