-- ===== src/Machine/Delivery.antt =====
-- When a replica of broker/statemachine.go delivers a live task: what its heap holds, and what
-- `Dequeue` finds there.
use distqueue.Base.{
  ℕ, zero, suc, ◌-◌, ◌<◌, ◌≡◌, ◌≢◌, ◌⊎◌, refl, sym, ap, subst, ◌∙◌, Bool, true, false, Option, none,
  some, List, [], ◌∷◌, arith, ◌==◌, Bytes, length, bytes_discrete, ℕ_discrete, ite, count, if-intro,
  inl, inr,
}
use distqueue.Base.Int.{ℤ}
use distqueue.Base.Maps.{get, insert, get-insert, get-delete, IsMap}
use distqueue.Heap
use distqueue.Heap.Queue.{push-SameElements, pop-SameElements, length-pop}
use distqueue.Task.{Task, pending, in_flight}
use distqueue.Machine.{
  Machine, less_at, is_in_heap, push_locked, is_deliverable, popped, delivered, dequeue_loop,
  dequeue,
}
use distqueue.Machine.Fuel.{dequeue_loop-ends}
use distqueue.Machine.Replica.{IsSound}
use distqueue.Machine.History.{popped-Delivers}

abbrev pub IsIn : ℕ → List ℕ → Type 0
IsIn p pq = 0 < count (λ q. q == p) pq

-- A live task is pending or in flight; if it is pending, or if its id is flagged as in the heap, its
-- object is in the heap.
pub record IsQueued (m : Machine) : Type 0 where
  pub waiting :
      (id : Bytes) (p : ℕ) → get m.tasks id ≡ some p → (m.cells p).status ≡ pending → IsIn p m.pq
  pub flagged :
      (id : Bytes) (p : ℕ) → get m.tasks id ≡ some p → is_in_heap m id ≡ true → IsIn p m.pq
  pub keyed : IsMap m.tasks
  pub awake :
      (id : Bytes) (p : ℕ)
      → get m.tasks id ≡ some p
      → ((m.cells p).status ≡ pending) ⊎ ((m.cells p).status ≡ in_flight)

IsIn-push :
    (less : ℕ → ℕ → Bool) (pq : List ℕ) (p q : ℕ)
    → (IsIn q pq) ⊎ (q ≡ p)
    → IsIn q (Heap.push less 0 pq p)
IsIn-push less pq p q h = ground (arith, push-SameElements less 0 pq p (λ x. x == q))

flag-insert :
    (m : Machine) (k id : Bytes)
    → get (insert m.in_heap k true) id ≡ ite (bytes_discrete k id) (some true) (get m.in_heap id)
flag-insert m k id = get-insert m.in_heap k true id

-- Pushing the live task `p`, which is all that may be missing from the heap.
pub pushed-IsQueued :
    (m : Machine) (id : Bytes) (p : ℕ)
    → get m.tasks id ≡ some p
    → (m.cells p).id ≡ id
    → IsMap m.tasks
    → ((j : Bytes) (q : ℕ)
        → get m.tasks j ≡ some q
        → j ≢ id
        → (m.cells q).status ≡ pending
        → IsIn q m.pq)
    → ((j : Bytes) (q : ℕ) → get m.tasks j ≡ some q → is_in_heap m j ≡ true → IsIn q m.pq)
    → ((j : Bytes) (q : ℕ)
        → get m.tasks j ≡ some q
        → ((m.cells q).status ≡ pending) ⊎ ((m.cells q).status ≡ in_flight))
    → IsQueued (push_locked m p)
unfolding push_locked
pushed-IsQueued m id p held own keyed waiting flagged awake =
    if-intro IsQueued (is_in_heap m (m.cells p).id)
      (λ flag. record {
        waiting = λ j q h pend. elim (bytes_discrete j id) [
          | yes e ↦ ground (arith, flagged j q)
          | no ne ↦ waiting j q h ne pend
        ];
        flagged = flagged;
        keyed = keyed;
        awake = awake;
      })
      (λ no_flag. record {
        waiting = λ j q h pend. IsIn-push (less_at m.cells) m.pq p q (elim (bytes_discrete j id) [
          | yes e ↦ inr (ground arith)
          | no ne ↦ inl (waiting j q h ne pend)
        ]);
        flagged = λ j q h flag. IsIn-push (less_at m.cells) m.pq p q (elim (bytes_discrete j id) [
          | yes e ↦ inr (ground arith)
          | no ne ↦ inl (ground (arith, flag-insert m (m.cells p).id j, flagged j q))
        ]);
        keyed = keyed;
        awake = awake;
      })

live-deliverable :
    (m : Machine) (id : Bytes) (p : ℕ)
    → IsSound m
    → get m.tasks id ≡ some p
    → (m.cells p).status ≡ pending
    → is_deliverable m p ≡ true
live-deliverable m id p s held pend =
    let own = s.own id p held in
    let found : get m.tasks (m.cells p).id ≡ some p = ap (get m.tasks) own ∙ held in
    ground (arith, found, pend)

flag-popped :
    (m : Machine) (q : ℕ) (rest : List ℕ) (id : Bytes)
    → is_in_heap (popped m q rest) id ≡ true
    → (is_in_heap m id ≡ true) × ((m.cells q).id ≢ id)
flag-popped m q rest id h = ground (arith, get-delete m.in_heap (m.cells q).id id)

module _ (m : Machine) (s : IsSound m) (w : IsQueued m) (n : ℕ) (size : length m.pq ≡ suc n) where
  abbrev first : ℕ
  first = (Heap.pop (less_at m.cells) 0 m.pq).0

  abbrev others : List ℕ
  others = (Heap.pop (less_at m.cells) 0 m.pq).1

  IsIn-others : (q : ℕ) → q ≢ first → IsIn q m.pq → IsIn q others
  IsIn-others q ne h =
      ground (arith, pop-SameElements (less_at m.cells) 0 m.pq n size (λ x. x == q))

  -- A stale entry is popped and dropped.
  dropped-IsQueued : is_deliverable m first ≡ false → IsQueued (popped m first others)
  dropped-IsQueued stale =
      let not_stale : (p : ℕ) → p ≡ first → is_deliverable m p ≡ true → ⊥ =
        λ p e h. cc (subst (λ q. is_deliverable m q ≡ true) e h, stale) in
      record {
        waiting = λ id p held pend.
            IsIn-others p (λ e. not_stale p e (live-deliverable m id p s held pend))
              (w.waiting id p held pend);
        flagged = λ id p held flag.
            let (before, ne) = flag-popped m first others id flag in
            IsIn-others p (λ e. ne (ap (λ q. (m.cells q).id) (sym e) ∙ s.own id p held))
              (w.flagged id p held before);
        keyed = w.keyed;
        awake = w.awake;
      }

  -- A deliverable entry is popped and its task delivered.
  delivered-IsQueued :
      (now : ℕ) (timeout : ℤ) → IsQueued (delivered (popped m first others) first now timeout)
  delivered-IsQueued now timeout = record {
    waiting = λ id p held pend. elim (ℕ_discrete first p) [
      | yes e ↦ absurd (ground arith)
      | no ne ↦ IsIn-others p (λ e. ne (sym e)) (w.waiting id p held (ground arith))
    ];
    flagged = λ id p held flag.
        let (before, ne) = flag-popped m first others id flag in
        IsIn-others p (λ e. ne (ap (λ q. (m.cells q).id) (sym e) ∙ s.own id p held))
          (w.flagged id p held before);
    keyed = w.keyed;
    awake = λ id p held. ground (arith, w.awake id p held);
  }

length-zero : {A : Type 0} (xs : List A) → length xs ≡ 0 → xs ≡ []
length-zero [] h = refl
length-zero (x ∷ xs) h = absurd (omega arith)

-- What the loop leaves: the heap in order with the live tasks, and, where it finds nothing, an empty
-- heap and the same tasks.
record Searched (m : Machine) (r : Machine × Option Task) : Type 0 where
  queued : IsQueued r.0
  exhausted : r.1 ≡ none → (r.0.pq ≡ []) × (r.0.tasks ≡ m.tasks) × (r.0.cells ≡ m.cells)

abbrev Found : Machine → Option (Machine × Option Task) → Type 0
Found m o = (r : Machine × Option Task) × (o ≡ some r) × Searched m r

module _ (now : ℕ) (timeout : ℤ) where
  dequeue_loop-Searched :
      (f : ℕ) (m : Machine)
      → IsSound m
      → IsQueued m
      → length m.pq < f
      → Found m (dequeue_loop f m now timeout)
  unfolding dequeue_loop
  dequeue_loop-Searched zero m s w lt = absurd (omega arith)
  dequeue_loop-Searched (suc f) m s w lt =
      if-intro (Found m) (length m.pq == 0)
        (λ empty. (
          _,
          refl,
          record { queued = w; exhausted = λ _. (length-zero m.pq (ground arith), refl, refl) },
        ))
        (λ some_left.
          let n = length m.pq - 1 in
          let size : length m.pq ≡ suc n = ground arith in
          let p = first m s w n size in
          let rest = others m s w n size in
          if-intro (Found m) (is_deliverable m p)
            (λ live. (
              _,
              refl,
              record {
                queued = delivered-IsQueued m s w n size now timeout;
                exhausted = λ e. absurd (cc);
              },
            ))
            (λ stale.
              let (r, ends, again) =
                dequeue_loop-Searched f (popped m p rest) ((popped-Delivers m p rest).sound s)
                  (dropped-IsQueued m s w n size stale)
                  (omega (arith, length-pop (less_at m.cells) 0 m.pq n size)) in
              (r, ends, record { queued = again.queued; exhausted = again.exhausted })))

  dequeue-Searched : (m : Machine) → IsSound m → IsQueued m → Searched m (dequeue m now timeout)
  dequeue-Searched m s w =
      let enough : length m.pq < suc (length m.pq) = omega arith in
      let (r, ends, searched) = dequeue_loop-Searched (suc (length m.pq)) m s w enough in
      let same : r ≡ dequeue m now timeout =
        cc (ends, dequeue_loop-ends (suc (length m.pq)) m now timeout enough) in
      subst (Searched m) same searched

  pub dequeue-IsQueued : (m : Machine) → IsSound m → IsQueued m → IsQueued (dequeue m now timeout).0
  dequeue-IsQueued m s w = (dequeue-Searched m s w).queued

  pub dequeue-none :
      (m : Machine)
      → IsSound m
      → IsQueued m
      → (dequeue m now timeout).1 ≡ none
      → (id : Bytes) (p : ℕ) → get m.tasks id ≡ some p
      → (m.cells p).status ≡ in_flight
  dequeue-none m s w found id p held =
      let r = dequeue-Searched m s w in
      let (empty, tasks, cells) = r.exhausted found in
      elim (w.awake id p held) [
        | inr flying ↦ flying
        | inl pend ↦ absurd (
            let there =
              r.queued.waiting id p (ap (λ ts. get ts id) tasks ∙ held)
                (ap (λ (c : ℕ → Task). (c p).status) cells ∙ pend) in
            let gone : IsIn p [] = subst (IsIn p) empty there in omega (arith, gone))
      ]
