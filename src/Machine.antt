-- ===== src/Machine.antt =====
-- The replicated queue, broker/statemachine.go. A task is an object that the live map, the heap and
-- the dead letters point to, so the tasks lie in cells and the three hold pointers.
pub mod Replica
pub mod History
pub mod Delivery
pub mod Prompt
pub mod Stale
pub mod Fuel
use distqueue.Base.{
  ℕ, zero, suc, ◌+◌, Bool, true, false, not, ◌&&◌, Option, none, some, List, [], ◌∷◌, ◌++◌, map,
  ◌==◌, if◌then◌else◌, Bytes, length, bytes_discrete, ℕ_discrete, ite,
}
use distqueue.Base.Int.{ℤ, increment, leb_ℤ}
use distqueue.Base.Maps
use distqueue.Base.Maps.{get, insert, delete, values}
use distqueue.Heap
use distqueue.Task.{Task, Status, pending, in_flight, done, dead, is_status, less}
use distqueue.Wal.{op_enqueue, op_ack, op_nack}
use distqueue.Broker.{add_duration}
use distqueue.Broker.Control.{Stats}

pub record QueueOp : Type 0 where
  pub type : ℕ
  pub task : Option Task
  pub task_id : Bytes

-- `cells` and `next` are Go's heap: what a pointer points to, and the first pointer not yet given
-- out.
pub record Machine : Type 0 where
  pub max_retries : ℤ
  pub cells : ℕ → Task
  pub next : ℕ
  pub tasks : List (Bytes × ℕ)
  pub pq : List ℕ
  pub in_heap : List (Bytes × Bool)
  pub dlq : List ℕ
  pub acked : ℕ
  pub nacked : ℕ

-- A write through the pointer `p`.
abbrev pub write : (ℕ → Task) → ℕ → Task → ℕ → Task
write cells p t q = ite (ℕ_discrete p q) t (cells q)

-- `inHeap[id]`
abbrev pub is_in_heap : Machine → Bytes → Bool
is_in_heap m id = elim (get m.in_heap id) [ none ↦ false | some b ↦ b ]

-- `Less`, through the pointers.
abbrev pub less_at : (ℕ → Task) → ℕ → ℕ → Bool
less_at cells p q = less (cells p) (cells q)

-- `NewStateMachine`
unfoldable pub new_machine : ℤ → (ℕ → Task) → ℕ → Machine
new_machine max_retries cells next = record {
  max_retries = max_retries;
  cells = cells;
  next = next;
  tasks = [];
  pq = [];
  in_heap = [];
  dlq = [];
  acked = 0;
  nacked = 0;
}

-- `pushLocked`
unfoldable pub push_locked : Machine → ℕ → Machine
push_locked m p = if is_in_heap m (m.cells p).id then m else record m {
  pq = Heap.push (less_at m.cells) 0 m.pq p;
  in_heap = insert m.in_heap (m.cells p).id true;
}

-- The cases of `Apply`.
unfoldable pub apply_enqueue : Machine → Task → Machine
apply_enqueue m t = ite (bytes_discrete t.id []) m (elim (get m.tasks t.id) [
  | some _ ↦ m
  | none ↦
      push_locked
        (record m {
          cells = write m.cells m.next (record t { status = pending });
          next = m.next + 1;
          tasks = insert m.tasks t.id m.next;
        })
        m.next
])

unfoldable pub apply_ack : Machine → Bytes → Machine
apply_ack m id = elim (get m.tasks id) [
  | none ↦ m
  | some p ↦ record m {
    cells = write m.cells p (record (m.cells p) { status = done });
    tasks = delete m.tasks id;
    acked = m.acked + 1;
  }
]

unfoldable pub nack_live : Machine → Bytes → ℕ → Machine
nack_live m id p =
    let retries = increment (m.cells p).retry_count in
    if leb_ℤ m.max_retries retries
    then record m {
      cells = write m.cells p (record (m.cells p) { retry_count = retries; status = dead });
      tasks = delete m.tasks id;
      dlq = m.dlq ++ p ∷ [];
      nacked = m.nacked + 1;
    }
    else push_locked
        (record m {
          cells =
              write m.cells p
                (record (m.cells p) { retry_count = retries; status = pending; deadline = 0 });
          nacked = m.nacked + 1;
        })
        p

unfoldable pub apply_nack : Machine → Bytes → Machine
apply_nack m id = elim (get m.tasks id) [ none ↦ m | some p ↦ nack_live m id p ]

-- `Apply`
unfoldable pub apply : Machine → QueueOp → Machine
apply m op =
    if op.type == op_enqueue
    then elim op.task [ none ↦ m | some t ↦ apply_enqueue m t ]
    else if op.type == op_ack
    then apply_ack m op.task_id
    else if op.type == op_nack
    then apply_nack m op.task_id
    else m

-- The heap entry `p` is no stale one: its task is live, is this very object, and is pending.
abbrev pub is_deliverable : Machine → ℕ → Bool
is_deliverable m p = elim (get m.tasks (m.cells p).id) [
  | none ↦ false
  | some q ↦ q == p && is_status (m.cells p).status pending
]

-- The state once the loop of `Dequeue` has popped `p`.
abbrev pub popped : Machine → ℕ → List ℕ → Machine
popped m p rest = record m { pq = rest; in_heap = delete m.in_heap (m.cells p).id }

abbrev pub delivered : Machine → ℕ → ℕ → ℤ → Machine
delivered m p now timeout = record m {
  cells =
      write m.cells p
        (record (m.cells p) { status = in_flight; deadline = add_duration now timeout });
}

-- The loop of `Dequeue`; each round pops one entry. None is a loop that has not ended in its rounds.
unfoldable pub dequeue_loop : ℕ → Machine → ℕ → ℤ → Option (Machine × Option Task)
dequeue_loop zero m now timeout = none
dequeue_loop (suc f) m now timeout =
    if length m.pq == 0
    then some (m, none)
    else let (p, rest) = Heap.pop (less_at m.cells) 0 m.pq in
      let again = dequeue_loop f (popped m p rest) now timeout in
      if is_deliverable m p
      then some (
        delivered (popped m p rest) p now timeout,
        some ((delivered (popped m p rest) p now timeout).cells p),
      )
      else again

-- `Dequeue`
unfoldable pub dequeue : Machine → ℕ → ℤ → Machine × Option Task
dequeue m now timeout = elim (dequeue_loop (suc (length m.pq)) m now timeout) [
  | none ↦ (m, none)
  | some r ↦ r
]

-- `Has`
unfoldable pub has : Machine → Bytes → Bool
has m id = elim (get m.tasks id) [ none ↦ false | some _ ↦ true ]

-- The loop of `RequeueInFlight`, over the live tasks.
unfoldable pub requeue_one : Machine → ℕ → Machine
requeue_one m p =
    if is_status (m.cells p).status in_flight
    then push_locked
        (record m {
          cells = write m.cells p (record (m.cells p) { status = pending; deadline = 0 });
        })
        p
    else m

unfoldable pub requeue_each : Machine → List ℕ → Machine
requeue_each m [] = m
requeue_each m (p ∷ ps) = requeue_each (requeue_one m p) ps

-- `RequeueInFlight`
unfoldable pub requeue_in_flight : Machine → Machine
requeue_in_flight m = requeue_each m (values m.tasks)

-- The two counters of `Stats`.
unfoldable pub tally : (ℕ → Task) → List ℕ → ℕ × ℕ
tally cells [] = (0, 0)
tally cells (p ∷ ps) =
    let (waiting, flying) = tally cells ps in
    if is_status (cells p).status in_flight then (waiting, flying + 1) else (waiting + 1, flying)

-- `Stats`
unfoldable pub stats : Machine → Stats
stats m =
    let (waiting, flying) = tally m.cells (values m.tasks) in
    record {
      pending = waiting;
      in_flight = flying;
      dlq = length m.dlq;
      acked = m.acked;
      nacked = m.nacked;
    }

-- `ListDLQ`
unfoldable pub list_dlq : Machine → List Task
list_dlq m = map m.cells m.dlq

-- `snapshotState`
pub record SnapshotState : Type 0 where
  pub tasks : List Task
  pub dlq : List Task
  pub acked : ℕ

-- `Snapshot`, before the coding.
unfoldable pub snapshot : Machine → SnapshotState
snapshot m = record {
  tasks = map (λ p. record (m.cells p) { status = pending; deadline = 0 }) (values m.tasks);
  dlq = map m.cells m.dlq;
  acked = m.acked;
}

-- A decoded task is a new object.
unfoldable pub allocate : (ℕ → Task) → ℕ → List Task → (ℕ → Task) × ℕ × List ℕ
allocate cells next [] = (cells, next, [])
allocate cells next (t ∷ ts) =
    let (cells', next', ps) = allocate (write cells next t) (next + 1) ts in
    (cells', next', next ∷ ps)

-- The loop of `Restore`.
unfoldable pub restore_each : Machine → List ℕ → Machine
restore_each m [] = m
restore_each m (p ∷ ps) =
    restore_each (push_locked (record m { tasks = insert m.tasks (m.cells p).id p }) p) ps

-- `Restore`, behind the decoding.
unfoldable pub restore : Machine → SnapshotState → Machine
restore m st =
    let (cells, next, ps) = allocate m.cells m.next st.tasks in
    let (cells', next', letters) = allocate cells next st.dlq in
    let empty = record m { cells = cells'; next = next'; tasks = []; pq = []; in_heap = [] } in
    record (restore_each empty ps) { dlq = letters; acked = st.acked }
