-- ===== src/Machine/Restored.antt =====
-- What restoring a snapshot can achieve.
use libpolycall_v.Prelude.{
  refl, some, true, suc, [], inl, inr, ◌∷◌, ℕ, ◌≤◌, List, ◌≡◌, u32, ◌<◌, ◌+◌, u32_mod, arith, set,
  length, ◌∙◌, sym,
}
use libpolycall_v.Machine.Run.{run, Request, step}
use libpolycall_v.Machine.Snapshot.{
  create_state_snapshot, restore_state_from_snapshot, StateSnapshot, restore_snapshot,
}
use libpolycall_v.Machine.{StateMachine, success, update_state_timestamp}
use libpolycall_v.Machine.Invariant.{state_at, IsValid}
use libpolycall_v.Machine.Versions.{step-Advances}

-- After `n` calls the version of a state is `k ≤ n` on, and it is unchanged if `k` is 0.
record IsOn (n i : ℕ) (sm next : StateMachine) : Type 0 where
  count : ℕ
  count_le : count ≤ n
  version_on : (state_at next i).version ≡ u32 ((state_at sm i).version + count)
  still : count ≡ 0 → state_at next i ≡ state_at sm i
  known : i < next.num_states

run-IsOn :
    (i : ℕ) (sm : StateMachine) (rs : List Request)
    → i < sm.num_states
    → (state_at sm i).version < u32_mod
    → IsOn (length rs) i sm (run sm rs)
unfolding run
run-IsOn i sm [] h v = record {
  count = 0;
  count_le = omega arith;
  version_on = omega arith;
  still = λ _. refl;
  known = h;
}
run-IsOn i sm (r ∷ rs) h v =
    let one = step-Advances i sm r in
    elim (one.moved h) [
      | inl same ↦
          let rest = run-IsOn i (step sm r) rs (one.known h) (rw same v) in
          record {
            count = rest.count;
            count_le = omega (arith, rest.count_le);
            version_on = rw (← same) rest.version_on;
            still = λ e. rest.still e ∙ same;
            known = rest.known;
          }
      | inr on ↦
          let rest = run-IsOn i (step sm r) rs (one.known h) (rw on (omega arith)) in
          record {
            count = suc rest.count;
            count_le = omega (arith, rest.count_le);
            version_on = omega (arith, rest.version_on, on);
            still = λ e. absurd (omega (arith, e));
            known = rest.known;
          }
    ]

taken_state :
    (sm : StateMachine) (k taken : ℕ) (snapshot : StateSnapshot)
    → IsValid sm
    → k < sm.num_states
    → create_state_snapshot sm k true taken ≡ (some snapshot, success)
    → snapshot.state ≡ state_at sm k
unfolding create_state_snapshot
taken_state sm k taken snapshot v h e = ground (arith, v.initialized)

-- What an accepted restore has checked, and what it writes.
accepted_restore :
    (sm : StateMachine) (snapshot : StateSnapshot) (later : ℕ)
    → (restore_state_from_snapshot sm (some snapshot) later).1 ≡ success
    → ((state_at sm snapshot.state.id).version ≡ snapshot.state.version)
      × ((restore_state_from_snapshot sm (some snapshot) later).0 ≡ record sm {
        states = set sm.states snapshot.state.id (update_state_timestamp later snapshot.state);
      })
unfolding restore_state_from_snapshot restore_snapshot
accepted_restore sm snapshot later e = ground arith

-- Restoring brings nothing back: if a snapshot of a state of a valid machine is accepted after
-- fewer than 2 ^ 32 calls, whatever they were, then that state is still the one that the
-- snapshot holds, and restoring only advances its timestamp and version.
pub restore_only_current :
    (sm : StateMachine) (k taken later : ℕ) (snapshot : StateSnapshot) (rs : List Request)
    → IsValid sm
    → k < sm.num_states
    → (state_at sm k).version < u32_mod
    → create_state_snapshot sm k true taken ≡ (some snapshot, success)
    → length rs < u32_mod
    → (restore_state_from_snapshot (run sm rs) (some snapshot) later).1 ≡ success
    → let end = run sm rs in
      (state_at end k ≡ snapshot.state)
      × ((restore_state_from_snapshot end (some snapshot) later).0 ≡ record end {
        states = set end.states k (update_state_timestamp later (state_at end k));
      })
restore_only_current sm k taken later snapshot rs v h bound took short accepted =
    let on = run-IsOn k sm rs h bound in
    let holds : snapshot.state ≡ state_at sm k = taken_state sm k taken snapshot v h took in
    let number : snapshot.state.id ≡ k = ground (arith, holds, v.numbered k h) in
    let same = accepted_restore (run sm rs) snapshot later accepted in
    let idle : on.count ≡ 0 = ground (arith, same.0, holds, number, on.version_on, on.count_le) in
    let still : state_at (run sm rs) k ≡ snapshot.state = on.still idle ∙ sym holds in
    (still, rw still (rw (← number) same.1))
