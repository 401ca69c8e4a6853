-- ===== src/Server/Scans.antt =====
-- The deadlines of handed-out tasks, server/cluster.go.
use distqueue.Base.{
  ℕ, zero, suc, ◌≡◌, refl, sym, ◌∙◌, subst, ap, Bool, true, false, not, Option, none, some, List,
  [], ◌∷◌, arith, ltb, ◌==◌, if◌then◌else◌, Bytes, bytes_discrete, ite, count, length, if-intro,
  option-intro,
}
use distqueue.Base.Int.{ℤ}
use distqueue.Base.Maps.{get, delete, get-delete, IsMap, delete-IsMap}
use distqueue.Heap
use distqueue.Task.{Task}
use distqueue.Broker.{add_duration}
use distqueue.Machine.{
  Machine, QueueOp, write, push_locked, is_deliverable, popped, delivered, less_at, dequeue_loop,
  requeue_one, requeue_each, requeue_in_flight, tally, stats,
}
use distqueue.Machine
use distqueue.Machine.Fuel.{dequeue_loop-ends}
use distqueue.Raft
use distqueue.Raft.{is_leader}
use distqueue.Server.{
  Codec, ClusterServer, Reply, Redelivery, propose, redeliver, end_finish, scan_each, scan,
}

-- The test for one id.
abbrev pub is_id : Bytes → Bytes → Bool
is_id id j = ite (bytes_discrete j id) true false

-- A deadline that has passed.
abbrev pub due : Option ℕ → ℕ → Bool
due none now = false
due (some deadline) now = ltb deadline now

-- The id is tracked at most once, with that deadline.
record Splits (m : List (Bytes × ℕ)) (now : ℕ) (id : Bytes) : Type 0 where
  pub kept : get (scan_each now m).0 id ≡ (if due (get m id) now then none else get m id)
  pub expired : count (is_id id) (scan_each now m).1 ≡ (if due (get m id) now then 1 else 0)

scan_each-Splits : (m : List (Bytes × ℕ)) (now : ℕ) (id : Bytes) → IsMap m → Splits m now id
unfolding scan_each get IsMap
scan_each-Splits [] now id h = record { kept = refl; expired = refl }
scan_each-Splits ((j, d) ∷ m) now id h =
    let rest = scan_each-Splits m now id h.1 in
    record { kept = ground (arith, rest.kept, h.0); expired = ground (arith, rest.expired, h.0) }

pub scan_each-IsMap : (m : List (Bytes × ℕ)) (now : ℕ) → IsMap m → IsMap (scan_each now m).0
unfolding scan_each IsMap
scan_each-IsMap [] now h = h
scan_each-IsMap ((j, d) ∷ m) now h =
    ground (arith, scan_each-IsMap m now h.1, (scan_each-Splits m now j h.1).kept, h.0)

-- A scan takes out just the deadlines that have passed, and lists each such id once.
pub scan-splits :
    (s : ClusterServer) (now : ℕ) (id : Bytes)
    → IsMap s.inflight
    → (get (scan s now).0.inflight id
        ≡ (if due (get s.inflight id) now then none else get s.inflight id))
      × (count (is_id id) (scan s now).1 ≡ (if due (get s.inflight id) now then 1 else 0))
unfolding scan
scan-splits s now id h = let r = scan_each-Splits s.inflight now id h in (r.kept, r.expired)

pub propose-inflight :
    (c : Codec) (s : ClusterServer) (op : QueueOp) → (propose c s op).0.inflight ≡ s.inflight
unfolding propose
propose-inflight c s op =
    option-intro (λ (r : ClusterServer × Reply (ℕ × ℕ)). r.0.inflight ≡ s.inflight) (c.encode_op op)
      (λ _. refl)
      (λ cmd _.
        if-intro (λ (r : ClusterServer × Reply (ℕ × ℕ)). r.0.inflight ≡ s.inflight)
          (Raft.propose s.node cmd).3 (λ _. refl) (λ _. refl))

redeliver-inflight :
    (c : Codec) (s : ClusterServer) (id : Bytes) → (redeliver c s id).0.inflight ≡ s.inflight
unfolding redeliver
redeliver-inflight c s id =
    if-intro (λ (r : ClusterServer × Redelivery). r.0.inflight ≡ s.inflight)
      (not (is_leader s.node.state)) (λ _. refl)
      (λ _.
        if-intro (λ (r : ClusterServer × Redelivery). r.0.inflight ≡ s.inflight)
          (not (Machine.has s.sm id)) (λ _. refl) (λ _. propose-inflight c s _))

-- An id that a scan has listed is listed by no later one, also where its nack is not proposed.
pub scan-once :
    (c : Codec) (s : ClusterServer) (now later : ℕ) (id : Bytes)
    → IsMap s.inflight
    → due (get s.inflight id) now ≡ true
    → count (is_id id) (scan (redeliver c (scan s now).0 id).0 later).1 ≡ 0
unfolding scan
scan-once c s now later id h late =
    let kept = (scan_each now s.inflight).0 in
    let (gone, _) = scan-splits s now id h in
    subst (λ m. count (is_id id) (scan_each later m).1 ≡ 0)
      (sym (redeliver-inflight c (record s { inflight = kept }) id))
      ((scan_each-Splits kept later id (scan_each-IsMap s.inflight now h)).expired
        ∙ ground (arith, gone, late))

-- The loop has ended with that task.
abbrev HandsOut : Task → Option (Machine × Option Task) → Type 0
HandsOut t o = (m : Machine) × (o ≡ some (m, some t))

dequeue_loop-deadline :
    (f : ℕ) (m : Machine) (now : ℕ) (timeout : ℤ) (t : Task)
    → HandsOut t (dequeue_loop f m now timeout)
    → t.deadline ≡ add_duration now timeout
unfolding dequeue_loop
dequeue_loop-deadline zero m now timeout t h = absurd (cc (h.1))
dequeue_loop-deadline (suc f) m now timeout t h =
    let p = (Heap.pop (less_at m.cells) 0 m.pq).0 in
    let rest = (Heap.pop (less_at m.cells) 0 m.pq).1 in
    if-intro
      (λ (o : Option (Machine × Option Task)). HandsOut t o → t.deadline ≡ add_duration now timeout)
      (length m.pq == 0) (λ _ e. absurd (cc (e.1)))
      (λ _.
        if-intro
          (λ (o : Option (Machine × Option Task)).
            HandsOut t o → t.deadline ≡ add_duration now timeout)
          (is_deliverable m p) (λ _ e. ground (arith, e.1))
          (λ _. dequeue_loop-deadline f (popped m p rest) now timeout t))
      h

pub dequeue-deadline :
    (m : Machine) (now : ℕ) (timeout : ℤ) (t : Task)
    → (Machine.dequeue m now timeout).1 ≡ some t
    → t.deadline ≡ add_duration now timeout
dequeue-deadline m now timeout t h = dequeue_loop-deadline (suc (length m.pq)) m now timeout t (
  (Machine.dequeue m now timeout).0,
  dequeue_loop-ends (suc (length m.pq)) m now timeout (omega arith)
      ∙ ap (λ o. some ((Machine.dequeue m now timeout).0, o)) h,
)

-- Behind a finished ack or nack of an id no scan lists it.
pub end_finish-forgets :
    (s : ClusterServer) (id : Bytes) (later : ℕ)
    → IsMap s.inflight
    → count (is_id id) (scan (end_finish s id) later).1 ≡ 0
unfolding end_finish scan
end_finish-forgets s id later h =
    (scan_each-Splits (delete s.inflight id) later id (delete-IsMap s.inflight id h)).expired
    ∙ ground (arith, get-delete s.inflight id id)
