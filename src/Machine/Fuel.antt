-- ===== src/Machine/Fuel.antt =====
-- The loop of `Dequeue`, broker/statemachine.go, and how many rounds it takes.
use distqueue.Base.{ℕ, zero, suc, ◌-◌, ◌<◌, ◌≡◌, refl, Option, some, arith, ◌==◌, length, if-intro₂}
use distqueue.Base.Int.{ℤ}
use distqueue.Heap
use distqueue.Heap.Queue.{length-pop}
use distqueue.Machine.{Machine, less_at, is_deliverable, popped, dequeue_loop, dequeue}

-- Two runs of a loop have ended with the same result.
abbrev pub EndAlike {ℓ} : {A : Type ℓ} → Option A → Option A → Type ℓ
EndAlike {A = A} x y = (r : A) × (x ≡ some r) × (y ≡ some r)

dequeue_loop-EndAlike :
    (f g : ℕ) (m : Machine) (now : ℕ) (timeout : ℤ)
    → length m.pq < f
    → length m.pq < g
    → EndAlike (dequeue_loop f m now timeout) (dequeue_loop g m now timeout)
unfolding dequeue_loop
dequeue_loop-EndAlike zero g m now timeout p q = absurd (omega arith)
dequeue_loop-EndAlike (suc f) zero m now timeout p q = absurd (omega arith)
dequeue_loop-EndAlike (suc f) (suc g) m now timeout p q =
    if-intro₂ EndAlike (length m.pq == 0) (λ _. (_, refl, refl))
      (λ some_left.
        let n = length m.pq - 1 in
        let size : length m.pq ≡ suc n = ground arith in
        let shorter = length-pop (less_at m.cells) 0 m.pq n size in
        let (first, rest) = Heap.pop (less_at m.cells) 0 m.pq in
        if-intro₂ EndAlike (is_deliverable m first) (λ _. (_, refl, refl))
          (λ _.
            dequeue_loop-EndAlike f g (popped m first rest) now timeout (omega (arith, shorter))
              (omega (arith, shorter))))

-- With more rounds than the heap has entries, the loop of `Dequeue` ends, whatever the entries are,
-- and with the result of `Dequeue` for every such number of rounds.
pub dequeue_loop-ends :
    (f : ℕ) (m : Machine) (now : ℕ) (timeout : ℤ)
    → length m.pq < f
    → dequeue_loop f m now timeout ≡ some (dequeue m now timeout)
unfolding dequeue
dequeue_loop-ends f m now timeout p =
    let (r, here, there) =
      dequeue_loop-EndAlike f (suc (length m.pq)) m now timeout p (omega arith) in
    ground (arith, here, there)
