-- ===== src/Heap.antt =====
-- Go's container/heap, which broker/priorityqueue.go calls, over the list that stands for the
-- slice. `less` and the slice are the heap.Interface of the caller; `d` is read only out of range,
-- where Go panics. The loops run on fuel: `up` halves its index, `down` at least doubles it.
pub mod Swap
pub mod Order
pub mod Up
pub mod Down
pub mod Queue
use distqueue.Base.{
  ℕ, zero, suc, ◌+◌, ◌-◌, ◌*◌, ◌/◌, Bool, not, ◌&&◌, ◌||◌, List, [], ◌∷◌, ◌++◌, ltb, leb, ◌==◌,
  if◌then◌else◌, length, get_or, set, take,
}

-- The parent of a child, `(j - 1) / 2`.
abbrev pub parent : ℕ → ℕ
parent j = (j - 1) / 2

module _ {ℓ} {A : Type ℓ} (d : A) where
  -- `h[i]`
  abbrev pub at : List A → ℕ → A
  at a i = get_or a i d

  -- `h.Swap(i, j)`
  unfoldable pub swap : List A → ℕ → ℕ → List A
  swap a i j = set (set a i (at a j)) j (at a i)

module _ {ℓ} {A : Type ℓ} (less : A → A → Bool) (d : A) where
  unfoldable pub up_loop : ℕ → List A → ℕ → List A
  up_loop zero a j = a
  up_loop (suc f) a j =
      let rest = up_loop f (swap d a (parent j) j) (parent j) in
      if parent j == j || not (less (at d a j) (at d a (parent j))) then a else rest

  unfoldable pub up : List A → ℕ → List A
  up a j = up_loop (j + 1) a j

  -- The child that `down` compares with: the right one if it lies below `n` and comes first.
  unfoldable pub first_child : List A → ℕ → ℕ → ℕ
  first_child a i n =
      if ltb (2 * i + 2) n && less (at d a (2 * i + 2)) (at d a (2 * i + 1))
      then 2 * i + 2
      else 2 * i + 1

  unfoldable pub down_loop : ℕ → List A → ℕ → ℕ → List A
  down_loop zero a i n = a
  down_loop (suc f) a i n =
      let j = first_child a i n in
      let rest = down_loop f (swap d a i j) j n in
      if leb n (2 * i + 1) || not (less (at d a j) (at d a i)) then a else rest

  unfoldable pub down : List A → ℕ → ℕ → List A
  down a i n = down_loop (n + 1) a i n

  -- `heap.Push(h, x)`
  unfoldable pub push : List A → A → List A
  push a x = up (a ++ x ∷ []) (length a)

  -- The slice that `heap.Pop` leaves before it cuts off the last entry.
  unfoldable pub sifted : List A → List A
  sifted a = down (swap d a 0 (length a - 1)) 0 (length a - 1)

  -- `heap.Pop(h)` on a slice that is not empty
  unfoldable pub pop : List A → A × List A
  pop a = (at d (sifted a) (length a - 1), take (length a - 1) (sifted a))
