-- ===== src/Task.antt =====
-- broker/task.go and the taskHeap of broker/priorityqueue.go. A time is the number of nanoseconds
-- since Go's zero time, which is 0.
pub mod Queue
use distqueue.Base.{
  ℕ, zero, suc, ◌+◌, ◌≡◌, Bool, true, false, not, Option, none, some, List, [], ◌∷◌, arith, ltb,
  ◌==◌, if◌then◌else◌, Bytes, length, bytes_discrete, ℕ_discrete, ite,
}
use distqueue.Base.Int.{ℤ, pos, negsuc, ltb_ℤ, pos_part, neg_part}
use distqueue.Heap
use distqueue.Heap.Order.{IsOrder}

pub data Status : Type 0 where
  pending in_flight done dead : Status

pub record Task : Type 0 where
  pub id : Bytes
  pub payload : Bytes
  pub priority : ℤ
  pub status : Status
  pub retry_count : ℤ
  pub created_at : ℕ
  pub deadline : ℕ

-- The value that an access out of range would have; no access is.
abbrev pub no_task : Task
no_task = record {
  id = [];
  payload = [];
  priority = pos 0;
  status = pending;
  retry_count = pos 0;
  created_at = 0;
  deadline = 0;
}

unfoldable pub Status-discrete : Discrete Status
Status-discrete = hlevel

abbrev pub is_status : Status → Status → Bool
is_status pending pending = true
is_status in_flight in_flight = true
is_status done done = true
is_status dead dead = true
is_status _ _ = false

-- `Less` of taskHeap, on the tasks that the two indices hold.
unfoldable pub less : Task → Task → Bool
less t u =
    if not (pos_part t.priority + neg_part u.priority == pos_part u.priority + neg_part t.priority)
    then ltb_ℤ t.priority u.priority
    else ltb t.created_at u.created_at

pub less-IsOrder : IsOrder less
unfolding less
less-IsOrder = record {
  irrefl = λ a. ground arith;
  asym = λ a b h. ground arith;
  trans = λ a b c h k. ground arith;
}

-- `PriorityQueue.Push`
unfoldable pub push : List Task → Task → List Task
push q t = Heap.push less no_task q t

-- `PriorityQueue.Pop`
unfoldable pub pop : List Task → Option (Task × List Task)
pop q = if length q == 0 then none else some (Heap.pop less no_task q)
