-- ===== src/Machine/Preserved/Integrity.antt =====
-- Verifying and locking keep a machine valid.
use libpolycall_v.Prelude.{ℕ, ◌<◌, Bool, true, false, not, arith, leb, ◌==◌, if_rule, ◌∙◌}
use libpolycall_v.Machine.{StateMachine, calculate_state_checksum, update_state_timestamp}
use libpolycall_v.Machine.Integrity.{
  check_refuses, count_violation, verify_state_integrity, set_lock, lock_state, unlock_state,
}
use libpolycall_v.Machine.Invariant.{
  IsValid, Keeps, state_at, written-IsValid, checksum_update, checksum_lock,
}

count_violation-IsValid : {sm : StateMachine} → IsValid sm → IsValid (count_violation sm)
count_violation-IsValid v = record {
  initialized = v.initialized;
  states_size = v.states_size;
  transitions_size = v.transitions_size;
  num_states_le = v.num_states_le;
  num_transitions_le = v.num_transitions_le;
  current_lt = v.current_lt;
  numbered = v.numbered;
  intact = v.intact;
  stored = v.stored;
  wired = v.wired;
}

pub verify_state_integrity-IsValid :
    {sm : StateMachine} (state_id : ℕ) → IsValid sm → Keeps (verify_state_integrity sm state_id)
unfolding verify_state_integrity
verify_state_integrity-IsValid {sm} k v =
    let s = state_at sm k in
    if_rule Keeps (not sm.is_initialized) (λ _. v)
      λ _.
        if_rule Keeps (leb sm.num_states k) (λ _. v)
          λ _.
            if_rule Keeps (not (calculate_state_checksum s == s.checksum))
              (λ _. count_violation-IsValid v)
              λ _.
                if_rule Keeps (check_refuses sm.integrity_check s) (λ _. count_violation-IsValid v)
                  λ _. v

set_lock-IsValid :
    {sm : StateMachine} (locked : Bool) (state_id now : ℕ)
    → IsValid sm
    → Keeps (set_lock locked sm state_id now)
unfolding set_lock
set_lock-IsValid {sm} locked k now v =
    let s = record (state_at sm k) { is_locked = locked } in
    if_rule Keeps (not sm.is_initialized) (λ _. v)
      λ _.
        if_rule Keeps (leb sm.num_states k) (λ _. v)
          λ known.
            let h : k < sm.num_states = ground arith in
            written-IsValid v k (update_state_timestamp now s) h (v.numbered k h)
              (checksum_update now s ∙ checksum_lock locked (state_at sm k) ∙ v.intact k h)

pub lock_state-IsValid :
    {sm : StateMachine} (state_id now : ℕ) → IsValid sm → Keeps (lock_state sm state_id now)
unfolding lock_state
lock_state-IsValid = set_lock-IsValid true

pub unlock_state-IsValid :
    {sm : StateMachine} (state_id now : ℕ) → IsValid sm → Keeps (unlock_state sm state_id now)
unfolding unlock_state
unlock_state-IsValid = set_lock-IsValid false
