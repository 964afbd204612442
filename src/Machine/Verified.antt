-- ===== src/Machine/Verified.antt =====
-- What `polycall_sm_verify_state_integrity` answers.
use libpolycall_v.Machine.{
  StateMachine, Pointer, Status, State, error_integrity_check_failed, state_bytes, success,
  calculate_state_checksum, zero_state,
}
use libpolycall_v.Machine.Integrity.{verify_state_integrity, count_violation, check_refuses}
use libpolycall_v.Prelude.{
  ℕ, Option, ◌<◌, Bool, List, ◌≡◌, if◌then◌else◌, arith, ◌++◌, ◌∷◌, fold_rotl_detects, ◌≢◌,
  eight-IsRotation, set, sym, get_or-set_self,
}
use libpolycall_v.Machine.Invariant.{IsValid, state_at, new_machine-IsValid}
use libpolycall_v.Machine.Run.{Request, run}
use libpolycall_v.Machine.Preserved.{AllSound, run-IsValid}
use libpolycall_v.Machine.Build.{new_machine}

abbrev pub refuse : StateMachine → StateMachine × Status
refuse sm = (count_violation sm, error_integrity_check_failed)

-- In a valid machine the checksums agree, so the answer is the caller's own check.
pub verify_state_integrity_lem :
    {sm : StateMachine} (k : ℕ)
    → IsValid sm
    → k < sm.num_states
    → verify_state_integrity sm k
      ≡ (if check_refuses sm.integrity_check (state_at sm k) then refuse sm else (sm, success))
unfolding verify_state_integrity
verify_state_integrity_lem {sm} k v h = ground (arith, v.initialized, v.intact k h)

-- After any history of calls on a new machine with sound snapshots, verifying a state that
-- exists answers what the caller's own check says, and changes nothing when that check is
-- absent or accepts.
pub verify_state_integrity-run :
    (ctx : Pointer) (check : Option (State → Bool)) (now : ℕ) (rs : List Request) (k : ℕ)
    → AllSound rs
    → k < (run (new_machine ctx check now) rs).num_states
    → let sm = run (new_machine ctx check now) rs in
      verify_state_integrity sm k
      ≡ (if check_refuses sm.integrity_check (state_at sm k) then refuse sm else (sm, success))
verify_state_integrity-run ctx check now rs k c h =
    verify_state_integrity_lem k (run-IsValid rs c (new_machine-IsValid ctx check now)) h

-- The checksum tells two states apart that differ in one covered byte.
checksum_one_byte :
    (s t : State) (xs : List ℕ) (b d : ℕ) (ys : List ℕ)
    → state_bytes s ≡ xs ++ b ∷ ys
    → state_bytes t ≡ xs ++ d ∷ ys
    → b < 256
    → d < 256
    → calculate_state_checksum s ≡ calculate_state_checksum t
    → b ≡ d
unfolding calculate_state_checksum
checksum_one_byte s t xs b d ys old new hb hd e =
    fold_rotl_detects eight-IsRotation 0 xs b d ys (omega arith) hb hd (rw (← old, ← new) e)

-- In a valid machine, a state that is replaced by one with the same stored checksum, whose
-- covered bytes differ in one byte from those it was sealed with, is refused, and the
-- violation is counted.
pub verify_state_integrity_detects :
    (sm : StateMachine) (k : ℕ) (state : State) (xs : List ℕ) (b d : ℕ) (ys : List ℕ)
    → IsValid sm
    → k < sm.num_states
    → state_bytes (state_at sm k) ≡ xs ++ b ∷ ys
    → state_bytes state ≡ xs ++ d ∷ ys
    → state.checksum ≡ (state_at sm k).checksum
    → b < 256
    → d < 256
    → b ≢ d
    → let tampered = record sm { states = set sm.states k state } in
      verify_state_integrity tampered k ≡ refuse tampered
unfolding verify_state_integrity
verify_state_integrity_detects sm k state xs b d ys v h old new same hb hd differ = ground (
  arith,
  v.initialized,
  v.states_size,
  v.num_states_le,
  get_or-set_self sm.states k state zero_state,
  v.intact k h,
  changed,
)
  where
    changed : calculate_state_checksum state ≡ calculate_state_checksum (state_at sm k) → ⊥
    changed e = differ (checksum_one_byte (state_at sm k) state xs b d ys old new hb hd (sym e))
