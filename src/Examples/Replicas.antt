-- ===== src/Examples/Replicas.antt =====
-- The replicated queue's theorems on one task that is enqueued, delivered and nacked.
use distqueue.Base.{◌≡◌, refl, none, some, List, [], ◌∷◌, codes}
use distqueue.Base.Int.{pos}
use distqueue.Task.{no_task}
use distqueue.Wal.{op_enqueue, op_nack}
use distqueue.Machine.{QueueOp, Machine, new_machine, apply}
use distqueue.Machine.Replica.{view, command, apply-view}
use distqueue.Machine.History.{
  Event, commit, deliver, take_over, run, committed, commands, no_queue, new_machine-IsSound,
  run-refines, replicas_agree,
}
use distqueue.Examples.{a_task}

abbrev enqueue_a : QueueOp
enqueue_a = record { type = op_enqueue; task = some a_task; task_id = [] }

abbrev nack_a : QueueOp
nack_a = record { type = op_nack; task = none; task_id = codes "a" }

abbrev leader : List Event
leader = commit enqueue_a ∷ deliver 100 (pos 30) ∷ commit nack_a ∷ take_over ∷ []

abbrev follower : List Event
follower = commit enqueue_a ∷ commit nack_a ∷ []

abbrev at_first : Machine
at_first = new_machine (pos 3) (λ p. no_task) 0

apply-view_example : view (apply at_first enqueue_a) ≡ command (view at_first) enqueue_a
apply-view_example = apply-view at_first enqueue_a (new_machine-IsSound (pos 3) (λ p. no_task) 0)

run-refines_example : view (run at_first leader) ≡ commands (no_queue (pos 3)) (committed leader)
run-refines_example = run-refines (pos 3) (λ p. no_task) 0 leader

replicas_agree_example :
    view (run at_first leader) ≡ view (run (new_machine (pos 3) (λ p. a_task) 4) follower)
unfolding committed
replicas_agree_example =
    replicas_agree (pos 3) (λ p. no_task) (λ p. a_task) 0 4 leader follower refl
