-- ===== src/Machine/Replica.antt =====
-- The abstract queue that a replica of broker/statemachine.go shows: the live tasks but for their
-- delivery, the dead letters and the counters, and a command on it.
use distqueue.Base.{
  ℕ, ◌+◌, ◌<◌, ◌≡◌, ◌≢◌, refl, sym, ap, ◌∙◌, Option, none, some, List, [], ◌∷◌, ◌++◌, map, arith,
  ◌==◌, leb, if◌then◌else◌, Bytes, bytes_discrete, ite, count, Option-cases, Bool-cases, if-intro,
  if-intro₂, inl, inr,
}
use distqueue.Base.Int.{ℤ, increment, leb_ℤ}
use distqueue.Base.Maps.{get, insert, delete, get-insert, get-delete}
use distqueue.Task.{Task, pending}
use distqueue.Wal.{op_enqueue, op_ack, op_nack}
use distqueue.Broker.Recovery.{as_pending}
use distqueue.Machine.{
  QueueOp, Machine, write, push_locked, apply_enqueue, apply_ack, nack_live, apply_nack, apply,
}

-- The abstract queue that the log of commands defines.
pub record Queue : Type 0 where
  pub limit : ℤ
  pub live : Bytes → Option Task
  pub letters : List Task
  pub acked : ℕ
  pub nacked : ℕ

abbrev pub put : (Bytes → Option Task) → Bytes → Option Task → Bytes → Option Task
put live k v j = ite (bytes_discrete k j) v (live j)

-- What a command does to the abstract queue.
unfoldable pub command : Queue → QueueOp → Queue
command q op =
    if op.type == op_enqueue
    then elim op.task [
      | none ↦ q
      | some t ↦ ite (bytes_discrete t.id []) q (elim (q.live t.id) [
        | some _ ↦ q
        | none ↦ record q { live = put q.live t.id (some (as_pending t)) }
      ])
    ]
    else elim (q.live op.task_id) [
      | none ↦ q
      | some t ↦
          if op.type == op_ack
          then record q { live = put q.live op.task_id none; acked = q.acked + 1 }
          else if op.type == op_nack
          then (let t' = record t { retry_count = increment t.retry_count } in
              if leb_ℤ q.limit t'.retry_count
              then record q {
                live = put q.live op.task_id none;
                letters = q.letters ++ t' ∷ [];
                nacked = q.nacked + 1;
              }
              else record q { live = put q.live op.task_id (some t'); nacked = q.nacked + 1 })
          else q
    ]

abbrev pub look : (ℕ → Task) → Option ℕ → Option Task
look cells none = none
look cells (some p) = some (as_pending (cells p))

-- The abstract queue of a replica.
unfoldable pub view : Machine → Queue
view m = record {
  limit = m.max_retries;
  live = λ id. look m.cells (get m.tasks id);
  letters = map (λ p. as_pending (m.cells p)) m.dlq;
  acked = m.acked;
  nacked = m.nacked;
}

-- No pointer is wild: a live task's object has its id, is allocated, and is no dead letter.
pub record IsSound (m : Machine) : Type 0 where
  pub own : (id : Bytes) (p : ℕ) → get m.tasks id ≡ some p → (m.cells p).id ≡ id
  pub allocated : (id : Bytes) (p : ℕ) → get m.tasks id ≡ some p → p < m.next
  pub apart : (id : Bytes) (p : ℕ) → get m.tasks id ≡ some p → count (λ d. d == p) m.dlq ≡ 0
  pub letters_allocated : count (λ d. leb m.next d) m.dlq ≡ 0

pub Queue-path :
    (q r : Queue)
    → q.limit ≡ r.limit
    → ((id : Bytes) → q.live id ≡ r.live id)
    → q.letters ≡ r.letters
    → q.acked ≡ r.acked
    → q.nacked ≡ r.nacked
    → q ≡ r
Queue-path q r a b c d e =
    λ i. record { limit = a i; live = λ id. b id i; letters = c i; acked = d i; nacked = e i }

-- A write through a pointer that the list does not hold.
map-write :
    (cells : ℕ → Task) (p : ℕ) (t : Task) (ds : List ℕ)
    → count (λ d. d == p) ds ≡ 0
    → map (λ d. as_pending (write cells p t d)) ds ≡ map (λ d. as_pending (cells d)) ds
map-write cells p t [] h = refl
map-write cells p t (d ∷ ds) h = ground (arith, map-write cells p t ds)

map-write_append :
    (cells : ℕ → Task) (p : ℕ) (t : Task) (ds : List ℕ)
    → count (λ d. d == p) ds ≡ 0
    → map (λ d. as_pending (write cells p t d)) (ds ++ p ∷ [])
      ≡ map (λ d. as_pending (cells d)) ds ++ as_pending t ∷ []
map-write_append cells p t [] h = ground arith
map-write_append cells p t (d ∷ ds) h = ground (arith, map-write_append cells p t ds)

pub push_locked-view : (m : Machine) (p : ℕ) → view (push_locked m p) ≡ view m
unfolding push_locked view
push_locked-view m p = if-intro (λ x. view x ≡ view m) _ (λ _. refl) (λ _. refl)

pub count-allocated :
    (n : ℕ) (ds : List ℕ) → count (λ d. leb n d) ds ≡ 0 → count (λ d. d == n) ds ≡ 0
count-allocated n [] h = refl
count-allocated n (d ∷ ds) h = ground (arith, count-allocated n ds)

module _ (m : Machine) (s : IsSound m) where
  enqueue-view :
      (t : Task)
      → get m.tasks t.id ≡ none
      → view (record m {
        cells = write m.cells m.next (record t { status = pending });
        next = m.next + 1;
        tasks = insert m.tasks t.id m.next;
      })
        ≡ record (view m) { live = put (view m).live t.id (some (as_pending t)) }
  unfolding view
  enqueue-view t free =
      Queue-path _ _ refl
        (λ id. elim (Option-cases (get m.tasks id)) [
          | inl absent ↦ ground (arith, get-insert m.tasks t.id m.next id)
          | inr (p, held) ↦ ground (arith, get-insert m.tasks t.id m.next id, s.allocated id p held)
        ])
        (map-write m.cells m.next _ m.dlq (count-allocated m.next m.dlq s.letters_allocated)) refl
        refl

  pushed-view :
      (t : Task)
      → get m.tasks t.id ≡ none
      → view (
          push_locked
            (record m {
              cells = write m.cells m.next (record t { status = pending });
              next = m.next + 1;
              tasks = insert m.tasks t.id m.next;
            })
            m.next)
        ≡ record (view m) { live = put (view m).live t.id (some (as_pending t)) }
  pushed-view t free = push_locked-view _ m.next ∙ enqueue-view t free

  -- Another live task is another object.
  pub other-ne :
      (id j : Bytes) (p q : ℕ) → get m.tasks id ≡ some p → get m.tasks j ≡ some q → id ≢ j → p ≢ q
  other-ne id j p q h k ne e = ne (sym (s.own id p h) ∙ ap (λ x. (m.cells x).id) e ∙ s.own j q k)

  -- A write to a live task changes that task in the view and nothing else.
  write-live :
      (id j : Bytes) (p : ℕ) (t : Task)
      → get m.tasks id ≡ some p
      → look (write m.cells p t) (get m.tasks j) ≡ put (view m).live id (some (as_pending t)) j
  unfolding view
  write-live id j p t h = elim (Option-cases (get m.tasks j)) [
    | inl absent ↦ ground arith
    | inr (q, held) ↦ ground (arith, other-ne id j p q h held)
  ]

  delete-live :
      (id j : Bytes) (p : ℕ) (t : Task)
      → get m.tasks id ≡ some p
      → look (write m.cells p t) (get (delete m.tasks id) j) ≡ put (view m).live id none j
  unfolding view
  delete-live id j p t h = elim (Option-cases (get m.tasks j)) [
    | inl absent ↦ ground (arith, get-delete m.tasks id j)
    | inr (q, held) ↦ ground (arith, get-delete m.tasks id j, other-ne id j p q h held)
  ]

  ack-view :
      (id : Bytes) (p : ℕ)
      → get m.tasks id ≡ some p
      → view (apply_ack m id)
        ≡ record (view m) { live = put (view m).live id none; acked = m.acked + 1 }
  unfolding apply_ack view
  ack-view id p held =
      simp (apply_ack, held)
        (Queue-path _ _ refl (λ j. delete-live id j p _ held)
          (map-write m.cells p _ m.dlq (s.apart id p held)) refl refl)

  nack-view :
      (id : Bytes) (p : ℕ)
      → get m.tasks id ≡ some p
      → let t = record (as_pending (m.cells p)) {
        retry_count = increment (m.cells p).retry_count;
      } in
        view (nack_live m id p) ≡ (
          if leb_ℤ m.max_retries t.retry_count
          then record (view m) {
            live = put (view m).live id none;
            letters = (view m).letters ++ t ∷ [];
            nacked = m.nacked + 1;
          }
          else record (view m) { live = put (view m).live id (some t); nacked = m.nacked + 1 })
  unfolding nack_live
  nack-view id p held =
      let retries = increment (m.cells p).retry_count in
      elim (Bool-cases (leb_ℤ m.max_retries retries)) [
        | inl over ↦ simp over (
            unfold view in
            Queue-path _ _ refl (λ j. delete-live id j p _ held)
              (map-write_append m.cells p _ m.dlq (s.apart id p held)) refl refl)
        | inr under ↦ simp under (
            push_locked-view _ p
            ∙ unfold view in
              Queue-path _ _ refl (λ j. write-live id j p _ held)
                (map-write m.cells p _ m.dlq (s.apart id p held)) refl refl)
      ]

  enqueue_op-view :
      (t : Task)
      → view (apply_enqueue m t)
        ≡ ite (bytes_discrete t.id []) (view m) (elim ((view m).live t.id) [
          | some _ ↦ view m
          | none ↦ record (view m) { live = put (view m).live t.id (some (as_pending t)) }
        ])
  unfolding apply_enqueue
  enqueue_op-view t = elim (Option-cases (get m.tasks t.id)) [
    | inl free ↦
        let unknown : (view m).live t.id ≡ none = unfold view in ap (look m.cells) free in
        ground (arith, unknown, pushed-view t free)
    | inr (p, held) ↦
        let known : (view m).live t.id ≡ some (as_pending (m.cells p)) =
          unfold view in ap (look m.cells) held in
        ground (arith, known)
  ]

module _ (m : Machine) (s : IsSound m) (op : QueueOp) where
  unfinished :
      get m.tasks op.task_id ≡ none → (apply_ack m op.task_id ≡ m) × (apply_nack m op.task_id ≡ m)
  unfolding apply_ack apply_nack
  unfinished absent = (simp (apply_ack, absent) refl, simp (apply_nack, absent) refl)

  nack_op-view :
      (p : ℕ) → get m.tasks op.task_id ≡ some p → apply_nack m op.task_id ≡ nack_live m op.task_id p
  unfolding apply_nack
  nack_op-view p held = simp (apply_nack, held) refl

  -- The commands that end a delivery.
  finish-view :
      view (
        if op.type == op_ack
        then apply_ack m op.task_id
        else if op.type == op_nack
        then apply_nack m op.task_id
        else m)
      ≡ elim ((view m).live op.task_id) [
        | none ↦ view m
        | some t ↦
            if op.type == op_ack
            then record (view m) {
              live = put (view m).live op.task_id none;
              acked = (view m).acked + 1;
            }
            else if op.type == op_nack
            then (let t' = record t { retry_count = increment t.retry_count } in
                if leb_ℤ (view m).limit t'.retry_count
                then record (view m) {
                  live = put (view m).live op.task_id none;
                  letters = (view m).letters ++ t' ∷ [];
                  nacked = (view m).nacked + 1;
                }
                else record (view m) {
                  live = put (view m).live op.task_id (some t');
                  nacked = (view m).nacked + 1;
                })
            else view m
      ]
  finish-view = elim (Option-cases (get m.tasks op.task_id)) [
    | inl absent ↦
        let unknown : (view m).live op.task_id ≡ none = unfold view in ap (look m.cells) absent in
        let (no_ack, no_nack) = unfinished absent in simp (unknown, no_ack, no_nack) (ground arith)
    | inr (p, held) ↦
        let known : (view m).live op.task_id ≡ some (as_pending (m.cells p)) =
          unfold view in ap (look m.cells) held in
        simp known (
          if-intro₂ (λ x q. view x ≡ q) (op.type == op_ack)
            (λ _. ack-view m s op.task_id p held ∙ (unfold view in refl))
            (λ _.
              if-intro₂ (λ x q. view x ≡ q) (op.type == op_nack)
                (λ _.
                  ap view (nack_op-view p held)
                  ∙ nack-view m s op.task_id p held
                  ∙ (unfold view in refl))
                (λ _. refl)))
  ]

-- `Apply` of a command on a replica without wild pointers, seen without status, deadline and heap,
-- is the command on the abstract queue that the replica shows: an enqueue of a new id adds a task,
-- an ack removes one, a nack counts a retry or moves the task to the dead letters.
pub apply-view : (m : Machine) (op : QueueOp) → IsSound m → view (apply m op) ≡ command (view m) op
unfolding apply command
apply-view m op s =
    if-intro₂ (λ x q. view x ≡ q) (op.type == op_enqueue)
      (λ _. elim (Option-cases op.task) [
        | inl bare ↦ simp bare refl
        | inr (t, full) ↦ simp full (enqueue_op-view m s t)
      ])
      (λ _. finish-view m s op)
