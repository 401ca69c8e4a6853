-- ===== src/Machine/History.antt =====
-- Runs of a replica, broker/statemachine.go: commands, deliveries and take-overs in any order.
use mathlib.Core.Path.{fun_ext}
use distqueue.Base.{
  subst, ℕ, zero, suc, ◌+◌, ◌<◌, ◌≡◌, ◌≢◌, refl, sym, ap, ◌∙◌, Option, none, some, List, [], ◌∷◌,
  ◌++◌, map, arith, ◌==◌, leb, Bytes, length, bytes_discrete, ℕ_discrete, count, if-intro,
  option-intro, ite-intro,
}
use distqueue.Base.Int.{ℤ, increment, leb_ℤ}
use distqueue.Base.Maps.{get, values, get-insert, get-delete}
use distqueue.Heap
use distqueue.Task.{Task, in_flight, is_status}
use distqueue.Wal.{op_enqueue, op_ack, op_nack}
use distqueue.Broker.Recovery.{as_pending}
use distqueue.Machine.{
  QueueOp, Machine, new_machine, write, less_at, is_in_heap, push_locked, apply_enqueue, apply_ack,
  nack_live, apply_nack, apply, dequeue_loop, dequeue, is_deliverable, popped, requeue_one,
  requeue_each, requeue_in_flight,
}
use distqueue.Machine.Fuel.{dequeue_loop-ends}
use distqueue.Machine.Replica.{
  Queue, Queue-path, command, view, look, IsSound, apply-view, push_locked-view, count-allocated,
  other-ne,
}

push_locked-IsSound : (m : Machine) (p : ℕ) → IsSound m → IsSound (push_locked m p)
unfolding push_locked
push_locked-IsSound m p s =
    if-intro IsSound (is_in_heap m (m.cells p).id) (λ _. s)
      (λ _. record {
        own = s.own;
        allocated = s.allocated;
        apart = s.apart;
        letters_allocated = s.letters_allocated;
      })

count-leb_suc :
    (n : ℕ) (ds : List ℕ) → count (λ d. leb n d) ds ≡ 0 → count (λ d. leb (n + 1) d) ds ≡ 0
count-leb_suc n [] h = refl
count-leb_suc n (d ∷ ds) h = ground (arith, count-leb_suc n ds)

count-distinct :
    (n p : ℕ) (ds : List ℕ)
    → p < n
    → count (λ d. leb n d) ds ≡ 0
    → count (λ d. leb n d) (ds ++ p ∷ []) ≡ 0
count-distinct n p [] l h = ground arith
count-distinct n p (d ∷ ds) l h = ground (arith, count-distinct n p ds)

count-last :
    (q p : ℕ) (ds : List ℕ)
    → p ≢ q
    → count (λ d. d == q) ds ≡ 0
    → count (λ d. d == q) (ds ++ p ∷ []) ≡ 0
count-last q p [] l h = ground arith
count-last q p (d ∷ ds) l h = ground (arith, count-last q p ds)

module _ (m : Machine) (s : IsSound m) where
  apply_enqueue-IsSound : (t : Task) → IsSound (apply_enqueue m t)
  unfolding apply_enqueue
  apply_enqueue-IsSound t =
      ite-intro IsSound (bytes_discrete t.id []) (λ _. s)
        (λ _.
          option-intro IsSound (get m.tasks t.id)
            (λ free. push_locked-IsSound _ m.next record {
              own = λ j q h.
                  ground (arith, get-insert m.tasks t.id m.next j, s.own j q, s.allocated j q);
              allocated =
                  λ j q h. ground (arith, get-insert m.tasks t.id m.next j, s.allocated j q);
              apart = λ j q h. ground (
                arith,
                get-insert m.tasks t.id m.next j,
                s.apart j q,
                count-allocated m.next m.dlq s.letters_allocated,
              );
              letters_allocated = count-leb_suc m.next m.dlq s.letters_allocated;
            })
            (λ p held. s))

  apply_ack-IsSound : (id : Bytes) → IsSound (apply_ack m id)
  unfolding apply_ack
  apply_ack-IsSound id =
      option-intro IsSound (get m.tasks id) (λ _. s)
        λ p held. record {
          own = λ j q h. ground (arith, get-delete m.tasks id j, s.own j q, s.own id p);
          allocated = λ j q h. ground (arith, get-delete m.tasks id j, s.allocated j q);
          apart = λ j q h. ground (arith, get-delete m.tasks id j, s.apart j q);
          letters_allocated = s.letters_allocated;
        }

  nack_live-IsSound : (id : Bytes) (p : ℕ) → get m.tasks id ≡ some p → IsSound (nack_live m id p)
  unfolding nack_live
  nack_live-IsSound id p held =
      if-intro IsSound (leb_ℤ m.max_retries (increment (m.cells p).retry_count))
        (λ _. record {
          own = λ j q h. ground (arith, get-delete m.tasks id j, s.own j q, s.own id p);
          allocated = λ j q h. ground (arith, get-delete m.tasks id j, s.allocated j q);
          apart = λ j q h. ground (
            arith,
            get-delete m.tasks id j,
            s.apart j q,
            other-ne m s id j p q held,
            count-last q p m.dlq,
          );
          letters_allocated =
              count-distinct m.next p m.dlq (s.allocated id p held) s.letters_allocated;
        })
        (λ _. push_locked-IsSound _ p record {
          own = λ j q h. ground (arith, s.own j q, s.own id p);
          allocated = s.allocated;
          apart = s.apart;
          letters_allocated = s.letters_allocated;
        })

  apply_nack-IsSound : (id : Bytes) → IsSound (apply_nack m id)
  unfolding apply_nack
  apply_nack-IsSound id =
      option-intro IsSound (get m.tasks id) (λ _. s) λ p held. nack_live-IsSound id p held

  -- Every command leaves the pointers in order.
  pub apply-IsSound : (op : QueueOp) → IsSound (apply m op)
  unfolding apply
  apply-IsSound op =
      if-intro IsSound (op.type == op_enqueue)
        (λ _. option-intro IsSound op.task (λ _. s) (λ t _. apply_enqueue-IsSound t))
        (λ _.
          if-intro IsSound (op.type == op_ack) (λ _. apply_ack-IsSound op.task_id)
            (λ _.
              if-intro IsSound (op.type == op_nack) (λ _. apply_nack-IsSound op.task_id) (λ _. s)))

-- `n` is the replica `m` but for the heap and what delivery writes.
pub record Delivers (m n : Machine) : Type 0 where
  pub sound : IsSound m → IsSound n
  pub seen : view n ≡ view m

Delivers-refl : (m : Machine) → Delivers m m
Delivers-refl m = record { sound = λ s. s; seen = refl }

Delivers-trans : (l m n : Machine) → Delivers l m → Delivers m n → Delivers l n
Delivers-trans l m n a b = record { sound = λ s. b.sound (a.sound s); seen = b.seen ∙ a.seen }

push_locked-Delivers : (m : Machine) (p : ℕ) → Delivers m (push_locked m p)
push_locked-Delivers m p = record { sound = push_locked-IsSound m p; seen = push_locked-view m p }

pub as_pending-write :
    (cells : ℕ → Task) (p : ℕ) (t : Task)
    → as_pending t ≡ as_pending (cells p)
    → (q : ℕ) → as_pending (write cells p t q) ≡ as_pending (cells q)
as_pending-write cells p t e q =
    ite-intro (λ x. as_pending x ≡ as_pending (cells q)) (ℕ_discrete p q)
      (λ h. e ∙ ap (λ r. as_pending (cells r)) h) (λ _. refl)

look-write :
    (cells : ℕ → Task) (p : ℕ) (t : Task)
    → as_pending t ≡ as_pending (cells p)
    → (o : Option ℕ) → look (write cells p t) o ≡ look cells o
look-write cells p t e none = refl
look-write cells p t e (some q) = ap some (as_pending-write cells p t e q)

write-Delivers :
    (m : Machine) (p : ℕ) (t : Task)
    → as_pending t ≡ as_pending (m.cells p)
    → Delivers m (record m { cells = write m.cells p t })
write-Delivers m p t e = record {
  sound = λ s. record {
    own = λ j q h. ap (λ (x : Task). x.id) (as_pending-write m.cells p t e q) ∙ s.own j q h;
    allocated = s.allocated;
    apart = s.apart;
    letters_allocated = s.letters_allocated;
  };
  seen =
      unfold view in
      Queue-path _ _ refl (λ id. look-write m.cells p t e (get m.tasks id))
        (ap (λ g. map g m.dlq) (fun_ext (as_pending-write m.cells p t e))) refl refl;
}

pub popped-Delivers : (m : Machine) (p : ℕ) (rest : List ℕ) → Delivers m (popped m p rest)
unfolding view
popped-Delivers m p rest = record {
  sound = λ s. record {
    own = s.own;
    allocated = s.allocated;
    apart = s.apart;
    letters_allocated = s.letters_allocated;
  };
  seen = refl;
}

module _ (now : ℕ) (timeout : ℤ) where
  Search : Machine → Option (Machine × Option Task) → Type 0
  Search m none = Unit
  Search m (some r) = Delivers m r.0

  Search-trans :
      (m m' : Machine) (o : Option (Machine × Option Task))
      → Delivers m m'
      → Search m' o
      → Search m o
  unfolding Search
  Search-trans m m' none h k = tt
  Search-trans m m' (some r) h k = Delivers-trans m m' r.0 h k

  dequeue_loop-Delivers : (f : ℕ) (m : Machine) → Search m (dequeue_loop f m now timeout)
  unfolding dequeue_loop Search
  dequeue_loop-Delivers zero m = tt
  dequeue_loop-Delivers (suc f) m =
      let p = (Heap.pop (less_at m.cells) 0 m.pq).0 in
      let rest = (Heap.pop (less_at m.cells) 0 m.pq).1 in
      let first = popped-Delivers m p rest in
      if-intro (Search m) (length m.pq == 0) (λ _. Delivers-refl m)
        (λ _.
          if-intro (Search m) (is_deliverable m p)
            (λ _. Delivers-trans _ _ _ first (write-Delivers (popped m p rest) p _ refl))
            (λ _. Search-trans m _ _ first (dequeue_loop-Delivers f (popped m p rest))))

  pub dequeue-Delivers : (m : Machine) → Delivers m (dequeue m now timeout).0
  unfolding Search
  dequeue-Delivers m =
      subst (Search m) (dequeue_loop-ends (suc (length m.pq)) m now timeout (omega arith))
        (dequeue_loop-Delivers (suc (length m.pq)) m)

pub requeue_one-Delivers : (m : Machine) (p : ℕ) → Delivers m (requeue_one m p)
unfolding requeue_one
requeue_one-Delivers m p =
    if-intro (Delivers m) (is_status (m.cells p).status in_flight)
      (λ _. Delivers-trans _ _ _ (write-Delivers m p _ refl) (push_locked-Delivers _ p))
      (λ _. Delivers-refl m)

requeue_each-Delivers : (m : Machine) (ps : List ℕ) → Delivers m (requeue_each m ps)
unfolding requeue_each
requeue_each-Delivers m [] = Delivers-refl m
requeue_each-Delivers m (p ∷ ps) =
    Delivers-trans _ _ _ (requeue_one-Delivers m p) (requeue_each-Delivers (requeue_one m p) ps)

pub requeue_in_flight-Delivers : (m : Machine) → Delivers m (requeue_in_flight m)
unfolding requeue_in_flight
requeue_in_flight-Delivers m = requeue_each-Delivers m (values m.tasks)

-- What befalls one replica: commands that the log commits, and what its own clients and its
-- elections make it do in between.
pub data Event : Type 0 where
  commit : QueueOp → Event
  deliver : ℕ → ℤ → Event
  take_over : Event

unfoldable pub happen : Machine → Event → Machine
happen m (commit op) = apply m op
happen m (deliver now timeout) = (dequeue m now timeout).0
happen m take_over = requeue_in_flight m

unfoldable pub run : Machine → List Event → Machine
run m [] = m
run m (e ∷ es) = run (happen m e) es

-- The commands among the events.
unfoldable pub committed : List Event → List QueueOp
committed [] = []
committed (commit op ∷ es) = op ∷ committed es
committed (deliver now timeout ∷ es) = committed es
committed (take_over ∷ es) = committed es

unfoldable pub commands : Queue → List QueueOp → Queue
commands q [] = q
commands q (op ∷ ops) = commands (command q op) ops

run-view :
    (m : Machine) (es : List Event) → IsSound m → view (run m es) ≡ commands (view m) (committed es)
unfolding run happen committed commands
run-view m [] s = refl
run-view m (commit op ∷ es) s =
    run-view (apply m op) es (apply-IsSound m s op)
    ∙ ap (λ q. commands q (committed es)) (apply-view m op s)
run-view m (deliver now timeout ∷ es) s =
    let d = dequeue-Delivers now timeout m in
    run-view _ es (d.sound s) ∙ ap (λ q. commands q (committed es)) d.seen
run-view m (take_over ∷ es) s =
    let d = requeue_in_flight-Delivers m in
    run-view _ es (d.sound s) ∙ ap (λ q. commands q (committed es)) d.seen

pub new_machine-IsSound :
    (limit : ℤ) (cells : ℕ → Task) (next : ℕ) → IsSound (new_machine limit cells next)
unfolding new_machine get
new_machine-IsSound limit cells next = record {
  own = λ id p h. ground arith;
  allocated = λ id p h. ground arith;
  apart = λ id p h. refl;
  letters_allocated = refl;
}

-- The abstract queue with nothing in it.
abbrev pub no_queue : ℤ → Queue
no_queue limit = record { limit = limit; live = λ id. none; letters = []; acked = 0; nacked = 0 }

new_machine-view :
    (limit : ℤ) (cells : ℕ → Task) (next : ℕ) → view (new_machine limit cells next) ≡ no_queue limit
unfolding new_machine view get
new_machine-view limit cells next = refl

-- A replica that starts empty shows, after any run of committed commands, deliveries and
-- take-overs, the abstract queue that the committed commands alone make of the empty one.
pub run-refines :
    (limit : ℤ) (cells : ℕ → Task) (next : ℕ) (es : List Event)
    → view (run (new_machine limit cells next) es) ≡ commands (no_queue limit) (committed es)
run-refines limit cells next es =
    run-view _ es (new_machine-IsSound limit cells next)
    ∙ ap (λ q. commands q (committed es)) (new_machine-view limit cells next)

-- Two replicas that start empty with one retry limit, and to which the same commands are committed
-- in the same order, end with the same live tasks and dead letters, but for status and deadline,
-- and the same counters, whatever each delivered or took over in between.
pub replicas_agree :
    (limit : ℤ) (cells cells' : ℕ → Task) (next next' : ℕ) (es es' : List Event)
    → committed es ≡ committed es'
    → view (run (new_machine limit cells next) es) ≡ view (run (new_machine limit cells' next') es')
replicas_agree limit cells cells' next next' es es' same =
    run-refines limit cells next es
    ∙ ap (commands (no_queue limit)) same
    ∙ sym (run-refines limit cells' next' es')
