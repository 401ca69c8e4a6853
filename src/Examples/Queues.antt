-- ===== src/Examples/Queues.antt =====
-- The priority queue's theorems on two tasks.
use distqueue.Base.{◌≡◌, refl, subst, false, [], ◌∷◌, arith}
use distqueue.Task.{less, no_task, pop}
use distqueue.Heap.{at, parent}
use distqueue.Task.Queue.{IsQueue, Pops, pop-Pops}
use distqueue.Examples.{a_task, b_task}

-- Task b has the lower priority number, so it comes first.
two-IsQueue : IsQueue (b_task ∷ a_task ∷ [])
unfolding less
two-IsQueue = λ c p below.
    let q = b_task ∷ a_task ∷ [] in
    let second : 1 ≡ c = omega arith in
    subst (λ k. less (at no_task q k) (at no_task q (parent k)) ≡ false) second refl

pop-Pops_example : Pops (b_task ∷ a_task ∷ []) (pop (b_task ∷ a_task ∷ []))
pop-Pops_example = pop-Pops (b_task ∷ a_task ∷ []) two-IsQueue
