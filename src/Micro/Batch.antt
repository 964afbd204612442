-- ===== src/Micro/Batch.antt =====
-- A batch fills the queue of the service with the commands that fit, as far as there is room.
use mathlib.Core.List.{append-nil, append_assoc}
use libpolycall_v.Prelude.{
  refl, zero, suc, [], ◌∷◌, List, ℕ, Bool, ◌≤◌, take, not, if_rule, ◌++◌, length, ltb, ◌-◌, ◌≡◌,
  if◌then◌else◌, ◌∙◌, arith, length-set, ◌<◌, sym,
}
use libpolycall_v.Micro.{CommandArray, Command, buffer_size}
use libpolycall_v.Micro.Commands.{enqueue, enqueue_all}
use libpolycall_v.Micro.Filter.{keep, take-set}

pub record IsQueue (queue : CommandArray) : Type 0 where
  pub within : queue.count ≤ queue.capacity
  pub room : queue.capacity ≤ length queue.commands

-- The commands in the queue, oldest first.
abbrev pub queued : CommandArray → List Command
queued queue = take queue.count queue.commands

abbrev pub fits : Command → Bool
fits cmd = not (ltb buffer_size cmd.payload_size)

pub enqueue-IsQueue :
    (queue : CommandArray) (cmd : Command) → IsQueue queue → IsQueue (enqueue queue cmd)
unfolding enqueue
enqueue-IsQueue queue cmd v =
    if_rule IsQueue (ltb buffer_size cmd.payload_size) (λ t. v)
      (λ f.
        if_rule IsQueue (ltb queue.count queue.capacity)
          (λ t. record {
            within = ground (arith, t, v.within);
            room = omega (arith, v.room, length-set queue.commands queue.count cmd);
          })
          (λ f. v))

pub enqueue_all-IsQueue :
    (queue : CommandArray) (cmds : List Command) → IsQueue queue → IsQueue (enqueue_all queue cmds)
unfolding enqueue_all
enqueue_all-IsQueue queue [] v = v
enqueue_all-IsQueue queue (cmd ∷ cmds) v =
    enqueue_all-IsQueue (enqueue queue cmd) cmds (enqueue-IsQueue queue cmd v)

-- The queue after one more command.
enqueue_lem :
    (queue : CommandArray) (cmd : Command) (rest : List Command)
    → IsQueue queue
    → queued (enqueue queue cmd)
        ++ take ((enqueue queue cmd).capacity - (enqueue queue cmd).count) rest
      ≡ queued queue ++ take (queue.capacity - queue.count) (if fits cmd then cmd ∷ rest else rest)
unfolding enqueue
enqueue_lem queue cmd rest v =
    if_rule
      (λ q.
        queued q ++ take (q.capacity - q.count) rest
        ≡ queued queue
          ++ take (queue.capacity - queue.count) (if fits cmd then cmd ∷ rest else rest))
      (ltb buffer_size cmd.payload_size) (λ t. ground (arith, t))
      (λ f.
        if_rule
          (λ q.
            queued q ++ take (q.capacity - q.count) rest
            ≡ queued queue
              ++ take (queue.capacity - queue.count) (if fits cmd then cmd ∷ rest else rest))
          (ltb queue.count queue.capacity)
          (λ t.
            let room : queue.count < queue.capacity = ground (arith, t) in
            let gap : queue.capacity - queue.count ≡ suc (queue.capacity - suc queue.count) =
              omega (arith, room) in
            rw (f, gap, take-set queue.count queue.commands cmd (omega (arith, room, v.room)))
              (append_assoc (queued queue) (cmd ∷ [])
                (take (queue.capacity - suc queue.count) rest)))
          (λ g. let full : queue.capacity - queue.count ≡ 0 = ground (arith, g) in rw full refl))

take_nil : (n : ℕ) → take {A = Command} n [] ≡ []
take_nil zero = refl
take_nil (suc n) = refl

-- A queue within its array holds after a batch what it held and then, as far as there is room,
-- the commands of the batch whose payload fits, in their order.
pub enqueue_all_lem :
    (queue : CommandArray) (cmds : List Command)
    → IsQueue queue
    → queued (enqueue_all queue cmds)
      ≡ queued queue ++ take (queue.capacity - queue.count) (keep fits cmds)
unfolding enqueue_all keep
enqueue_all_lem queue [] v =
    sym (rw (take_nil (queue.capacity - queue.count)) (append-nil (queued queue)))
enqueue_all_lem queue (cmd ∷ cmds) v =
    enqueue_all_lem (enqueue queue cmd) cmds (enqueue-IsQueue queue cmd v)
    ∙ enqueue_lem queue cmd (keep fits cmds) v
