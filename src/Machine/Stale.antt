-- ===== src/Machine/Stale.antt =====
-- A heap entry that outlives its task, in broker/statemachine.go: `pushLocked` goes by the id.
use distqueue.Base.{
  ℕ, ◌+◌, ◌<◌, ◌≡◌, ◌≢◌, refl, sym, subst, true, false, Option, none, some, List, [], ◌⊎◌, inl, inr,
  ◌∙◌, ◌∷◌, arith, Bytes, if-intro,
}
use distqueue.Base.Int.{ℤ}
use distqueue.Base.Maps.{get, insert, get-insert}
use distqueue.Heap
use distqueue.Task.{Task, pending}
use distqueue.Machine.{
  Machine, write, is_in_heap, push_locked, apply_enqueue, is_deliverable, dequeue_loop, dequeue,
  has,
}

-- The heap holds one entry, of a task that is gone.
pub record HasStale (m : Machine) (id : Bytes) : Type 0 where
  pub entry : ℕ
  pub alone : m.pq ≡ entry ∷ []
  pub old : entry < m.next
  pub named : (m.cells entry).id ≡ id
  pub flag : is_in_heap m id ≡ true
  pub gone : get m.tasks id ≡ none

-- The machine that an enqueue of the id makes.
enqueued : Machine → Task → Machine
enqueued m t = record m {
  cells = write m.cells m.next (record t { status = pending });
  next = m.next + 1;
  tasks = insert m.tasks t.id m.next;
}

enqueued_lem :
    (m : Machine) (t : Task) → HasStale m t.id → t.id ≢ [] → apply_enqueue m t ≡ enqueued m t
unfolding apply_enqueue push_locked enqueued
enqueued_lem m t h ne = ground (arith, h.gone, h.flag)

stale-not_deliverable :
    (m : Machine) (t : Task) (h : HasStale m t.id) → is_deliverable (enqueued m t) h.entry ≡ false
unfolding enqueued
stale-not_deliverable m t h = ground (arith, h.old, h.named, get-insert m.tasks t.id m.next t.id)

-- `Dequeue` finds nothing: the heap is empty, or has one stale entry.
record IsIdle (m : Machine) : Type 0 where
  idle : (m.pq ≡ []) ⊎ ((p : ℕ) × (m.pq ≡ p ∷ []) × (is_deliverable m p ≡ false))

-- What a `Dequeue` that finds nothing leaves.
record Fruitless (m : Machine) (r : Machine × Option Task) : Type 0 where
  nothing : r.1 ≡ none
  still : IsIdle r.0
  kept : r.0.tasks ≡ m.tasks

empty-Fruitless :
    (m : Machine) (now : ℕ) (timeout : ℤ)
    → Fruitless (record m { pq = [] }) (dequeue (record m { pq = [] }) now timeout)
unfolding dequeue dequeue_loop
empty-Fruitless m now timeout = record {
  nothing = refl;
  still = record { idle = inl refl };
  kept = refl;
}

single-Fruitless :
    (m : Machine) (p now : ℕ) (timeout : ℤ)
    → is_deliverable m p ≡ false
    → Fruitless (record m { pq = p ∷ [] }) (dequeue (record m { pq = p ∷ [] }) now timeout)
unfolding dequeue dequeue_loop Heap.pop Heap.sifted Heap.down Heap.down_loop Heap.swap
single-Fruitless m p now timeout stale =
    if-intro
      (λ (o : Option (Machine × Option Task)).
        Fruitless (record m { pq = p ∷ [] })
          (elim o [ none ↦ (record m { pq = p ∷ [] }, none) | some r ↦ r ]))
      (is_deliverable m p) (λ live. absurd (cc))
      (λ _. record { nothing = refl; still = record { idle = inl refl }; kept = refl })

idle-Fruitless :
    (m : Machine) (now : ℕ) (timeout : ℤ) → IsIdle m → Fruitless m (dequeue m now timeout)
idle-Fruitless m now timeout h =
    let Goal : List ℕ → Type 0 =
      λ pq. Fruitless (record m { pq = pq }) (dequeue (record m { pq = pq }) now timeout) in
    elim h.idle [
      | inl empty ↦ subst Goal (sym empty) (empty-Fruitless m now timeout)
      | inr (p, alone, stale) ↦ subst Goal (sym alone) (single-Fruitless m p now timeout stale)
    ]

-- Any number of calls of `Dequeue`, each with its time and its timeout.
unfoldable pub polled : Machine → List (ℕ × ℤ) → Machine
polled m [] = m
polled m ((now, timeout) ∷ calls) = polled (dequeue m now timeout).0 calls

polled-IsIdle :
    (m : Machine) (calls : List (ℕ × ℤ))
    → IsIdle m
    → IsIdle (polled m calls) × ((polled m calls).tasks ≡ m.tasks)
unfolding polled
polled-IsIdle m [] h = (h, refl)
polled-IsIdle m ((now, timeout) ∷ calls) h =
    let first = idle-Fruitless m now timeout h in
    let (still, same) = polled-IsIdle (dequeue m now timeout).0 calls first.still in
    (still, same ∙ first.kept)

enqueued-IsIdle : (m : Machine) (t : Task) → HasStale m t.id → IsIdle (enqueued m t)
unfolding enqueued
enqueued-IsIdle m t h = record {
  idle = inr (h.entry, h.alone, unfold enqueued in stale-not_deliverable m t h);
}

-- In a replica whose heap has one entry, of a task that is gone, an enqueue of the id of that task
-- makes it live, and behind it any number of calls of `Dequeue`, with nothing else between them,
-- deliver nothing, while the task stays live.
pub reenqueue-lost :
    (m : Machine) (t : Task) (calls : List (ℕ × ℤ)) (now : ℕ) (timeout : ℤ)
    → HasStale m t.id
    → t.id ≢ []
    → let later = polled (apply_enqueue m t) calls in
      (has later t.id ≡ true) × ((dequeue later now timeout).1 ≡ none)
unfolding has enqueued
reenqueue-lost m t calls now timeout h ne = rw (enqueued_lem m t h ne) (
    let (still, same) = polled-IsIdle (enqueued m t) calls (enqueued-IsIdle m t h) in
    (
      rw (has, same) (unfold enqueued in ground (arith, get-insert m.tasks t.id m.next t.id)),
      (idle-Fruitless (polled (enqueued m t) calls) now timeout still).nothing,
    ))
