-- ===== src/Machine/Versions.antt =====
-- The version counter: every call either leaves a state as it is or advances its version by one.
-- So a snapshot can only be put back while its state is still the same.
use libpolycall_v.Prelude.{
  refl, none, some, true, false, inl, ℕ, ◌<◌, Option, ◌≡◌, List, ◌⊎◌, u32, Bool, if_rule, not, leb,
  arith, ◌||◌, get_or-set, ◌+◌, set, take, ◌==◌,
}
use libpolycall_v.Machine.Build.{add_state, add_transition, add_named_state, add_named_transition}
use libpolycall_v.Machine.Execute.{
  execute_transition, execute_found, follow, Executed, count_failure, find_transition,
  guard_refuses,
}
use libpolycall_v.Machine.{
  StateMachine, State, Status, Pointer, max_states, max_transitions, zero_state, Transition,
  update_state_timestamp, calculate_state_checksum,
}
use libpolycall_v.Machine.Invariant.{state_at}
use libpolycall_v.Machine.Integrity.{
  count_violation, verify_state_integrity, set_lock, lock_state, unlock_state, check_refuses,
}
use libpolycall_v.Machine.Snapshot.{restore_state_from_snapshot, restore_snapshot, StateSnapshot}
use libpolycall_v.Machine.Run.{
  step, Request, adds_state, adds_transition, executes, verifies, locks, unlocks, restores,
}

-- From `sm` to `next`, state `i` is still there, and unchanged or one version on.
pub record Advances (i : ℕ) (sm next : StateMachine) : Type 0 where
  pub known : i < sm.num_states → i < next.num_states
  pub moved :
      i < sm.num_states
      → (state_at next i ≡ state_at sm i)
        ⊎ ((state_at next i).version ≡ u32 ((state_at sm i).version + 1))

-- A write past `i` leaves state `i` as it is.
extended-Advances :
    (i : ℕ) (sm : StateMachine) (s : State)
    → Advances i sm
        (record sm { states = set sm.states sm.num_states s; num_states = sm.num_states + 1 })
extended-Advances i sm s = record {
  known = λ h. omega arith;
  moved = λ h. inl (ground (arith, get_or-set sm.states sm.num_states i s zero_state));
}

same-Advances : (i : ℕ) (sm : StateMachine) → Advances i sm sm
same-Advances i sm = record { known = λ h. h; moved = λ h. inl refl }

written-Advances :
    (i : ℕ) (sm : StateMachine) (k : ℕ) (s : State)
    → s.version ≡ u32 ((state_at sm k).version + 1)
    → Advances i sm (record sm { states = set sm.states k s })
written-Advances i sm k s e = record {
  known = λ h. h;
  moved = λ h. ground (arith, get_or-set sm.states k i s zero_state);
}

abbrev Moves : ℕ → StateMachine → StateMachine × Status → Type 0
Moves i sm r = Advances i sm r.0

add_state-Advances :
    (i : ℕ) (sm : StateMachine) (name : Option (List ℕ)) (on_enter on_exit : Pointer)
    (is_final : Bool) (now : ℕ)
    → Moves i sm (add_state sm name on_enter on_exit is_final now)
unfolding add_state add_named_state
add_state-Advances i sm none on_enter on_exit is_final now = same-Advances i sm
add_state-Advances i sm (some name) on_enter on_exit is_final now =
    if_rule (Moves i sm) (not sm.is_initialized) (λ _. same-Advances i sm)
      λ _.
        if_rule (Moves i sm) (leb max_states sm.num_states) (λ _. same-Advances i sm)
          λ _. extended-Advances i sm _

add_transition-Advances :
    (i : ℕ) (sm : StateMachine) (name : Option (List ℕ)) (from to : ℕ) (action : Pointer)
    (guard : Option (State → State → Bool))
    → Moves i sm (add_transition sm name from to action guard)
unfolding add_transition add_named_transition
add_transition-Advances i sm none from to action guard = same-Advances i sm
add_transition-Advances i sm (some name) from to action guard =
    if_rule (Moves i sm) (not sm.is_initialized) (λ _. same-Advances i sm)
      λ _.
        if_rule (Moves i sm) (leb max_transitions sm.num_transitions) (λ _. same-Advances i sm)
          λ _.
            if_rule (Moves i sm) (leb sm.num_states from || leb sm.num_states to)
              (λ _. same-Advances i sm) λ _. record { known = λ h. h; moved = λ h. inl refl }

abbrev Leads : ℕ → StateMachine → Executed → Type 0
Leads i sm r = Advances i sm r.machine

count_failure-Advances : (i : ℕ) (sm : StateMachine) → Advances i sm (count_failure sm)
count_failure-Advances i sm = record { known = λ h. h; moved = λ h. inl refl }

follow-Advances :
    (i : ℕ) (sm : StateMachine) (t : Transition) (now : ℕ) → Leads i sm (follow sm t now)
unfolding follow
follow-Advances i sm t now =
    let from = state_at sm t.from_state in
    let to = state_at sm t.to_state in
    let next = written-Advances i sm t.to_state (update_state_timestamp now to) refl in
    if_rule (Leads i sm) (from.is_locked || to.is_locked) (λ _. same-Advances i sm)
      λ _.
        if_rule (Leads i sm) (guard_refuses t.guard_condition from to)
          (λ _. count_failure-Advances i sm)
          (λ _. record { known = next.known; moved = next.moved })

execute_found-Advances :
    (i : ℕ) (sm : StateMachine) (t : Option Transition) (now : ℕ)
    → Leads i sm (execute_found sm t now)
unfolding execute_found
execute_found-Advances i sm none now = count_failure-Advances i sm
execute_found-Advances i sm (some t) now =
    if_rule (Leads i sm) (not t.is_valid) (λ _. count_failure-Advances i sm)
      (λ _. follow-Advances i sm t now)

execute_transition-Advances :
    (i : ℕ) (sm : StateMachine) (name : Option (List ℕ)) (now : ℕ)
    → Leads i sm (execute_transition sm name now)
unfolding execute_transition
execute_transition-Advances i sm none now = same-Advances i sm
execute_transition-Advances i sm (some name) now =
    if_rule (Leads i sm) (not sm.is_initialized) (λ _. same-Advances i sm)
      (λ _.
        execute_found-Advances i sm (find_transition (take sm.num_transitions sm.transitions) name)
          now)

count_violation-Advances : (i : ℕ) (sm : StateMachine) → Advances i sm (count_violation sm)
count_violation-Advances i sm = record { known = λ h. h; moved = λ h. inl refl }

verify_state_integrity-Advances :
    (i : ℕ) (sm : StateMachine) (k : ℕ) → Moves i sm (verify_state_integrity sm k)
unfolding verify_state_integrity
verify_state_integrity-Advances i sm k =
    let s = state_at sm k in
    let refused = count_violation-Advances i sm in
    if_rule (Moves i sm) (not sm.is_initialized) (λ _. same-Advances i sm)
      λ _.
        if_rule (Moves i sm) (leb sm.num_states k) (λ _. same-Advances i sm)
          λ _.
            if_rule (Moves i sm) (not (calculate_state_checksum s == s.checksum)) (λ _. refused)
              λ _.
                if_rule (Moves i sm) (check_refuses sm.integrity_check s) (λ _. refused)
                  (λ _. same-Advances i sm)

set_lock-Advances :
    (i : ℕ) (sm : StateMachine) (locked : Bool) (k now : ℕ) → Moves i sm (set_lock locked sm k now)
unfolding set_lock
set_lock-Advances i sm locked k now =
    if_rule (Moves i sm) (not sm.is_initialized) (λ _. same-Advances i sm)
      λ _.
        if_rule (Moves i sm) (leb sm.num_states k) (λ _. same-Advances i sm)
          λ _. written-Advances i sm k _ refl

restore-Advances :
    (i : ℕ) (sm : StateMachine) (snapshot : Option StateSnapshot) (now : ℕ)
    → Moves i sm (restore_state_from_snapshot sm snapshot now)
unfolding restore_state_from_snapshot restore_snapshot
restore-Advances i sm none now = same-Advances i sm
restore-Advances i sm (some snapshot) now =
    let s = snapshot.state in
    let slot = state_at sm s.id in
    if_rule (Moves i sm) (not sm.is_initialized) (λ _. same-Advances i sm)
      λ _.
        if_rule (Moves i sm) (leb sm.num_states s.id) (λ _. same-Advances i sm)
          λ _.
            if_rule (Moves i sm) slot.is_locked (λ _. same-Advances i sm)
              λ _.
                if_rule (Moves i sm) (not (slot.version == s.version)) (λ _. same-Advances i sm)
                  λ same. written-Advances i sm s.id (update_state_timestamp now s) (ground arith)

pub step-Advances : (i : ℕ) (sm : StateMachine) (r : Request) → Advances i sm (step sm r)
unfolding step lock_state unlock_state
step-Advances i sm (adds_state name on_enter on_exit is_final now) =
    add_state-Advances i sm name on_enter on_exit is_final now
step-Advances i sm (adds_transition name from to action guard) =
    add_transition-Advances i sm name from to action guard
step-Advances i sm (executes name now) = execute_transition-Advances i sm name now
step-Advances i sm (verifies k) = verify_state_integrity-Advances i sm k
step-Advances i sm (locks k now) = set_lock-Advances i sm true k now
step-Advances i sm (unlocks k now) = set_lock-Advances i sm false k now
step-Advances i sm (restores snapshot now) = restore-Advances i sm snapshot now
