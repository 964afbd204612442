-- ===== src/Machine/Preserved/Snapshot.antt =====
-- Putting a sound snapshot back keeps a machine valid.
use libpolycall_v.Prelude.{ℕ, refl, not, Option, none, some, arith, leb, ◌==◌, if_rule, ◌∙◌}
use libpolycall_v.Machine.{StateMachine, update_state_timestamp}
use libpolycall_v.Machine.Snapshot.{StateSnapshot, restore_snapshot, restore_state_from_snapshot}
use libpolycall_v.Machine.Invariant.{
  IsValid, IsIntact, Keeps, state_at, written-IsValid, checksum_update,
}

restore_snapshot-IsValid :
    {sm : StateMachine} (snapshot : StateSnapshot) (now : ℕ)
    → IsIntact snapshot.state
    → IsValid sm
    → Keeps (restore_snapshot sm snapshot now)
unfolding restore_snapshot
restore_snapshot-IsValid {sm} snapshot now c v =
    let s = snapshot.state in
    let slot = state_at sm s.id in
    if_rule Keeps (leb sm.num_states s.id) (λ _. v)
      λ known.
        if_rule Keeps slot.is_locked (λ _. v)
          λ _.
            if_rule Keeps (not (slot.version == s.version)) (λ _. v)
              λ _.
                written-IsValid v s.id (update_state_timestamp now s) (ground arith) refl
                  (checksum_update now s ∙ c)

-- A snapshot is sound when its state is intact, as one that the code took is.
abbrev pub IsSound : Option StateSnapshot → Type 0
IsSound none = Unit {0}
IsSound (some snapshot) = IsIntact snapshot.state

pub restore_state_from_snapshot-IsValid :
    {sm : StateMachine} (snapshot : Option StateSnapshot) (now : ℕ)
    → IsSound snapshot
    → IsValid sm
    → Keeps (restore_state_from_snapshot sm snapshot now)
unfolding restore_state_from_snapshot
restore_state_from_snapshot-IsValid none now c v = v
restore_state_from_snapshot-IsValid {sm} (some snapshot) now c v =
    if_rule Keeps (not sm.is_initialized) (λ _. v) (λ _. restore_snapshot-IsValid snapshot now c v)
