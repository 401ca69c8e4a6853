-- ===== src/Task/Queue.antt =====
-- The priority queue of broker/priorityqueue.go as its clients see it: what is popped comes first.
use distqueue.Base.{
  ℕ, suc, ◌≡◌, refl, false, Option, none, some, List, [], ◌∷◌, arith, ◌==◌, length, SameElements,
  All, All-of_index, if-intro,
}
use distqueue.Heap
use distqueue.Heap.{at}
use distqueue.Heap.Order.{IsHeap, root_first}
use distqueue.Heap.Queue.{push-IsHeap, push-SameElements, pop-IsHeap, pop-SameElements, pop-root}
use distqueue.Task.{Task, less, less-IsOrder, no_task, push, pop}

abbrev pub IsQueue : List Task → Type 0
IsQueue q = IsHeap less no_task q

-- What a queue gives: a task that no other comes before, and a queue of the others.
pub record IsFirst (q : List Task) (t : Task) (rest : List Task) : Type 0 where
  pub first : All (λ u. less u t ≡ false) q
  pub others : SameElements (t ∷ rest) q
  pub queue : IsQueue rest

popped-IsFirst :
    (q : List Task) (n : ℕ)
    → length q ≡ suc n
    → IsQueue q
    → IsFirst q (Heap.pop less no_task q).0 (Heap.pop less no_task q).1
popped-IsFirst q n size h = record {
  first = All-of_index _ q no_task (λ i p. ground (
    arith,
    pop-root less no_task q n size,
    root_first less no_task less-IsOrder q i (length q) h p,
  ));
  others = pop-SameElements less no_task q n size;
  queue = pop-IsHeap less no_task q n size less-IsOrder h;
}

-- What `pop` may say of a queue: nothing only if it is empty, else its first task.
abbrev pub Pops : List Task → Option (Task × List Task) → Type 0
Pops q none = q ≡ []
Pops q (some (t, rest)) = IsFirst q t rest

-- `Pop` of a queue in heap order says none only if the queue is empty. Otherwise it gives a task
-- that no task of the queue comes before, by priority and then by creation time, and what is left
-- is in heap order and has just the other tasks.
pub pop-Pops : (q : List Task) → IsQueue q → Pops q (pop q)
unfolding pop
pop-Pops [] h = refl
pop-Pops (t ∷ q) h =
    if-intro (Pops (t ∷ q)) (length (t ∷ q) == 0) (λ e. absurd (ground arith))
      (λ _. popped-IsFirst (t ∷ q) (length q) (omega arith) h)

-- `Push` of a task on a queue in heap order gives one in heap order with just that task added.
pub push-IsQueue :
    (q : List Task) (t : Task) → IsQueue q → IsQueue (push q t) × SameElements (push q t) (t ∷ q)
unfolding push
push-IsQueue q t h =
    (push-IsHeap less no_task less-IsOrder q t h, push-SameElements less no_task q t)
