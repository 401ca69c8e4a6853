-- ===== src/Examples/Deliveries.antt =====
-- The theorems on what a replica delivers, at small runs.
use distqueue.Base.{◌≡◌, ◌≢◌, refl, some, none, true, [], ◌∷◌, codes, arith, bytes_discrete}
use distqueue.Base.Int.{pos}
use distqueue.Base.Maps.{get, insert, delete}
use distqueue.Heap
use distqueue.Task.{Task, no_task}
use distqueue.Wal.{op_enqueue, op_ack}
use distqueue.Machine.{
  Machine, QueueOp, new_machine, apply, apply_enqueue, apply_ack, push_locked, dequeue,
  dequeue_loop, has,
}
use distqueue.Machine.History.{commit, run, happen}
use distqueue.Machine.Prompt.{IsTidy, run-delivers}
use distqueue.Machine.Stale.{HasStale, polled, reenqueue-lost}
use distqueue.Machine.Fuel.{dequeue_loop-ends}

abbrev task : Task
task = record no_task { id = codes "t" }

abbrev puts : QueueOp
puts = record { type = op_enqueue; task = some task; task_id = [] }

abbrev drops : QueueOp
drops = record { type = op_ack; task = none; task_id = codes "t" }

abbrev empty_one : Machine
empty_one = new_machine (pos 3) (λ _. no_task) 0

abbrev holding : Machine
holding = run empty_one (commit puts ∷ [])

run-delivers_example : (dequeue holding 7 (pos 30)).1 ≢ none
unfolding run happen apply apply_enqueue push_locked new_machine Heap.push get insert bytes_discrete
    IsTidy
run-delivers_example =
    run-delivers (pos 3) (λ _. no_task) 0 (commit puts ∷ []) holding 7 (pos 30) (codes "t") 0
      ((λ t h. refl), tt) refl refl refl

dequeue_loop-ends_example : dequeue_loop 9 holding 7 (pos 30) ≡ some (dequeue holding 7 (pos 30))
unfolding run happen apply apply_enqueue push_locked new_machine Heap.push Heap.up Heap.up_loop get
    insert bytes_discrete
dequeue_loop-ends_example = dequeue_loop-ends 9 holding 7 (pos 30) (omega arith)

-- The task is acked while its entry is in the heap.
abbrev stale : Machine
stale = run empty_one (commit puts ∷ commit drops ∷ [])

stale-HasStale : HasStale stale (codes "t")
unfolding run happen apply apply_enqueue apply_ack push_locked new_machine Heap.push Heap.up
    Heap.up_loop get insert delete bytes_discrete
stale-HasStale = record {
  entry = 0;
  alone = refl;
  old = omega arith;
  named = refl;
  flag = refl;
  gone = refl;
}

reenqueue-lost_example :
    let later = polled (apply_enqueue stale task) ((1, pos 30) ∷ (2, pos 30) ∷ []) in
    (has later (codes "t") ≡ true) × ((dequeue later 7 (pos 30)).1 ≡ none)
reenqueue-lost_example =
    reenqueue-lost stale task ((1, pos 30) ∷ (2, pos 30) ∷ []) 7 (pos 30) stale-HasStale
      (λ h. absurd (cc))
