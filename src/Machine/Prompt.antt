-- ===== src/Machine/Prompt.antt =====
-- The commands and the take-over of a replica keep what delivery relies on.
use distqueue.Base.{
  ℕ, ◌≡◌, ◌≢◌, ap, subst, ◌∙◌, false, none, some, List, [], ◌∷◌, arith, ◌==◌, Bytes, bytes_discrete,
  All, if-intro, option-intro, ite-intro,
}
use distqueue.Base.Int.{ℤ, increment, leb_ℤ}
use distqueue.Base.Maps.{get, values, get-insert, get-delete, IsMap, insert-IsMap, delete-IsMap}
use distqueue.Task.{Task, pending, in_flight, is_status}
use distqueue.Wal.{op_enqueue, op_ack, op_nack}
use distqueue.Machine.{
  QueueOp, Machine, new_machine, is_in_heap, push_locked, apply_enqueue, apply_ack, nack_live,
  apply_nack, apply, dequeue, requeue_one, requeue_each, requeue_in_flight,
}
use distqueue.Machine.Replica.{IsSound, other-ne}
use distqueue.Machine.History.{
  Event, commit, deliver, take_over, run, happen, apply-IsSound, dequeue-Delivers,
  requeue_one-Delivers, requeue_in_flight-Delivers, new_machine-IsSound,
}
use distqueue.Machine.Delivery.{IsQueued, pushed-IsQueued, dequeue-IsQueued, dequeue-none}

values-All :
    (ts : List (Bytes × ℕ)) (P : ℕ → Type 0)
    → IsMap ts
    → ((k : Bytes) (p : ℕ) → get ts k ≡ some p → P p)
    → All P (values ts)
unfolding values IsMap get
values-All [] P h f = tt
values-All ((k, v) ∷ ts) P h f =
    (f k v (ground arith), values-All ts P h.1 (λ j p g. f j p (ground (arith, h.0))))

module _ (m : Machine) (s : IsSound m) (w : IsQueued m) where
  apply_enqueue-IsQueued : (t : Task) → is_in_heap m t.id ≡ false → IsQueued (apply_enqueue m t)
  unfolding apply_enqueue
  apply_enqueue-IsQueued t fresh =
      ite-intro IsQueued (bytes_discrete t.id []) (λ _. w)
        (λ _.
          option-intro IsQueued (get m.tasks t.id)
            (λ free.
              pushed-IsQueued _ t.id m.next (ground (arith, get-insert m.tasks t.id m.next t.id))
                (ground arith) (insert-IsMap m.tasks t.id m.next w.keyed)
                (λ j q h ne pend.
                  ground (arith, get-insert m.tasks t.id m.next j, w.waiting j q, s.allocated j q))
                (λ j q h flag.
                  ground (arith, get-insert m.tasks t.id m.next j, w.flagged j q, s.allocated j q))
                (λ j q h.
                  ground (arith, get-insert m.tasks t.id m.next j, w.awake j q, s.allocated j q)))
            (λ p held. w))

  apply_ack-IsQueued : (id : Bytes) → IsQueued (apply_ack m id)
  unfolding apply_ack
  apply_ack-IsQueued id =
      option-intro IsQueued (get m.tasks id) (λ _. w)
        (λ p held. record {
          waiting = λ j q h pend.
              ground (arith, get-delete m.tasks id j, w.waiting j q, other-ne m s id j p q held);
          flagged = λ j q h flag. ground (arith, get-delete m.tasks id j, w.flagged j q);
          keyed = delete-IsMap m.tasks id w.keyed;
          awake = λ j q h.
              ground (arith, get-delete m.tasks id j, w.awake j q, other-ne m s id j p q held);
        })

  nack_live-IsQueued : (id : Bytes) (p : ℕ) → get m.tasks id ≡ some p → IsQueued (nack_live m id p)
  unfolding nack_live
  nack_live-IsQueued id p held =
      if-intro IsQueued (leb_ℤ m.max_retries (increment (m.cells p).retry_count))
        (λ _. record {
          waiting = λ j q h pend.
              ground (arith, get-delete m.tasks id j, w.waiting j q, other-ne m s id j p q held);
          flagged = λ j q h flag. ground (arith, get-delete m.tasks id j, w.flagged j q);
          keyed = delete-IsMap m.tasks id w.keyed;
          awake = λ j q h.
              ground (arith, get-delete m.tasks id j, w.awake j q, other-ne m s id j p q held);
        })
        (λ _.
          pushed-IsQueued _ id p held (ground (arith, s.own id p)) w.keyed
            (λ j q h ne pend. ground (arith, w.waiting j q, other-ne m s id j p q held)) w.flagged
            (λ j q h. ground (arith, w.awake j q)))

  apply_nack-IsQueued : (id : Bytes) → IsQueued (apply_nack m id)
  unfolding apply_nack
  apply_nack-IsQueued id =
      option-intro IsQueued (get m.tasks id) (λ _. w) (λ p held. nack_live-IsQueued id p held)

  -- The command does not enqueue an id that the heap still has from an earlier task.
  abbrev pub IsFresh : QueueOp → Type 0
  IsFresh op = (t : Task) → op.task ≡ some t → is_in_heap m t.id ≡ false

  pub apply-IsQueued : (op : QueueOp) → IsFresh op → IsQueued (apply m op)
  unfolding apply
  apply-IsQueued op fresh =
      if-intro IsQueued (op.type == op_enqueue)
        (λ _. option-intro IsQueued op.task (λ _. w) (λ t e. apply_enqueue-IsQueued t (fresh t e)))
        (λ _.
          if-intro IsQueued (op.type == op_ack) (λ _. apply_ack-IsQueued op.task_id)
            (λ _.
              if-intro IsQueued (op.type == op_nack) (λ _. apply_nack-IsQueued op.task_id)
                (λ _. w)))

  requeue_one-IsQueued : (p : ℕ) → get m.tasks (m.cells p).id ≡ some p → IsQueued (requeue_one m p)
  unfolding requeue_one
  requeue_one-IsQueued p held =
      if-intro IsQueued (is_status (m.cells p).status in_flight)
        (λ _.
          pushed-IsQueued _ (m.cells p).id p held (ground arith) w.keyed
            (λ j q h ne pend. ground (arith, w.waiting j q, other-ne m s (m.cells p).id j p q held))
            w.flagged (λ j q h. ground (arith, w.awake j q)))
        (λ _. w)

-- What requeueing a task leaves of the others.
requeue_one-same :
    (m : Machine) (p q : ℕ)
    → ((requeue_one m p).tasks ≡ m.tasks) × (((requeue_one m p).cells q).id ≡ (m.cells q).id)
unfolding requeue_one push_locked
requeue_one-same m p q = ground arith

IsLive : Machine → ℕ → Type 0
IsLive m p = get m.tasks (m.cells p).id ≡ some p

All-IsLive :
    (m : Machine) (p : ℕ) (ps : List ℕ) → All (IsLive m) ps → All (IsLive (requeue_one m p)) ps
unfolding IsLive
All-IsLive m p [] h = tt
All-IsLive m p (q ∷ qs) h =
    let (tasks, id) = requeue_one-same m p q in
    (
      ap (λ ts. get ts ((requeue_one m p).cells q).id) tasks ∙ ap (get m.tasks) id ∙ h.0,
      All-IsLive m p qs h.1,
    )

requeue_each-IsQueued :
    (ps : List ℕ) (m : Machine)
    → IsSound m
    → IsQueued m
    → All (IsLive m) ps
    → IsQueued (requeue_each m ps)
unfolding requeue_each IsLive
requeue_each-IsQueued [] m s w h = w
requeue_each-IsQueued (p ∷ ps) m s w h =
    requeue_each-IsQueued ps (requeue_one m p) ((requeue_one-Delivers m p).sound s)
      (requeue_one-IsQueued m s w p h.0) (All-IsLive m p ps h.1)

requeue_in_flight-IsQueued : (m : Machine) → IsSound m → IsQueued m → IsQueued (requeue_in_flight m)
unfolding requeue_in_flight IsLive
requeue_in_flight-IsQueued m s w =
    requeue_each-IsQueued (values m.tasks) m s w
      (values-All m.tasks (IsLive m) w.keyed (λ k p held. ap (get m.tasks) (s.own k p held) ∙ held))

-- In the run, no command enqueues an id that the heap still has from an earlier task.
unfoldable pub IsTidy : Machine → List Event → Type 0
IsTidy m [] = Unit
IsTidy m (commit op ∷ es) =
    ((t : Task) → op.task ≡ some t → is_in_heap m t.id ≡ false) × IsTidy (happen m (commit op)) es
IsTidy m (e ∷ es) = IsTidy (happen m e) es

run-IsQueued :
    (es : List Event) (m : Machine)
    → IsSound m
    → IsQueued m
    → IsTidy m es
    → IsSound (run m es) × IsQueued (run m es)
unfolding run happen IsTidy
run-IsQueued [] m s w h = (s, w)
run-IsQueued (commit op ∷ es) m s w h =
    run-IsQueued es _ (apply-IsSound m s op) (apply-IsQueued m s w op h.0) h.1
run-IsQueued (deliver now timeout ∷ es) m s w h =
    run-IsQueued es _ ((dequeue-Delivers now timeout m).sound s)
      (dequeue-IsQueued now timeout m s w) h
run-IsQueued (take_over ∷ es) m s w h =
    run-IsQueued es _ ((requeue_in_flight-Delivers m).sound s) (requeue_in_flight-IsQueued m s w) h

new_machine-IsQueued :
    (limit : ℤ) (cells : ℕ → Task) (next : ℕ) → IsQueued (new_machine limit cells next)
unfolding new_machine get IsMap
new_machine-IsQueued limit cells next = record {
  waiting = λ id p h. absurd (cc);
  flagged = λ id p h. absurd (cc);
  keyed = tt;
  awake = λ id p h. absurd (cc);
}

-- After any run of commits, deliveries and take-overs of a new replica, in which no command
-- enqueues an id that the heap still has, `Dequeue` delivers some task if there is a pending one.
pub run-delivers :
    (limit : ℤ) (cells : ℕ → Task) (next : ℕ) (es : List Event) (m : Machine) (now : ℕ)
    (timeout : ℤ) (id : Bytes) (p : ℕ)
    → IsTidy (new_machine limit cells next) es
    → run (new_machine limit cells next) es ≡ m
    → get m.tasks id ≡ some p
    → (m.cells p).status ≡ pending
    → (dequeue m now timeout).1 ≢ none
run-delivers limit cells next es m now timeout id p tidy ran held pend gone =
    let (s, w) =
      run-IsQueued es _ (new_machine-IsSound limit cells next)
        (new_machine-IsQueued limit cells next) tidy in
    let s' = subst IsSound ran s in
    let w' = subst IsQueued ran w in
    absurd (let flying = dequeue-none now timeout m s' w' gone id p held in cc)
