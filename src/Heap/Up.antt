-- ===== src/Heap/Up.antt =====
-- `up` turns a slice with one entry too far down into a heap of the same elements.
use distqueue.Base.{
  ℕ, zero, suc, ◌+◌, ◌<◌, ◌≡◌, ◌≢◌, refl, Bool, true, false, List, arith, length, SameElements,
  Bool-cases, inl, inr, ◌==◌, ◌||◌, not,
}
use distqueue.Heap.{at, swap, parent, up_loop, up}
use distqueue.Heap.Swap.{length-swap, at-swap, swap-SameElements}
use distqueue.Heap.Order.{IsOrder, IsHeap}

module _ {ℓ} {A : Type ℓ} (less : A → A → Bool) (d : A) where
  -- Only the edge above `j` may be out of order.
  pub record UpInvariant (a : List A) (j : ℕ) : Type ℓ where
    pub inside : j < length a
    pub edges : (c : ℕ) → 0 < c → c < length a → c ≢ j → less (at d a c) (at d a (parent c)) ≡ false
    pub bridge :
        (c : ℕ)
        → 0 < c
        → c < length a
        → parent c ≡ j
        → 0 < j
        → less (at d a c) (at d a (parent j)) ≡ false

  swap-UpInvariant :
      (o : IsOrder less) (a : List A) (j : ℕ)
      → UpInvariant a j
      → 0 < j
      → less (at d a j) (at d a (parent j)) ≡ true
      → UpInvariant (swap d a (parent j) j) (parent j)
  swap-UpInvariant o a j v pos before =
      let i = parent j in
      let at' = at-swap d a i j (omega arith) v.inside in
      let size = length-swap d a i j in
      record {
        inside = omega (arith, size);
        edges = λ c p q r. ground (
          arith,
          size,
          at' c,
          at' (parent c),
          v.edges c,
          v.bridge c,
          o.asym (at d a j) (at d a i),
          o.trans (at d a j) (at d a i) (at d a c),
        );
        bridge = λ c p q r s. ground (
          arith,
          size,
          at' c,
          at' (parent i),
          v.edges c,
          v.edges i,
          o.trans (at d a (parent i)) (at d a i) (at d a c),
        );
      }

  up_loop-IsHeap :
      (o : IsOrder less) (f : ℕ) (a : List A) (j : ℕ)
      → j < f
      → UpInvariant a j
      → IsHeap less d (up_loop less d f a j)
  unfolding up_loop
  up_loop-IsHeap o zero a j h v = absurd (omega arith)
  up_loop-IsHeap o (suc f) a j h v =
      elim (Bool-cases (parent j == j || not (less (at d a j) (at d a (parent j))))) [
        | inl stop ↦ rw stop (λ c p q. ground (arith, v.edges c))
        | inr go ↦ rw go (
            up_loop-IsHeap o f (swap d a (parent j) j) (parent j) (ground arith)
              (swap-UpInvariant o a j v (ground arith) (ground arith)))
      ]

  pub up_loop-SameElements :
      (f : ℕ) (a : List A) (j : ℕ) → j < length a → SameElements (up_loop less d f a j) a
  unfolding up_loop
  up_loop-SameElements zero a j h p = refl
  up_loop-SameElements (suc f) a j h p = ground (
    arith,
    up_loop-SameElements f (swap d a (parent j) j) (parent j)
        (omega (arith, length-swap d a (parent j) j)) p,
    swap-SameElements d a (parent j) j (omega arith) h p,
  )

  pub up-IsHeap :
      (o : IsOrder less) (a : List A) (j : ℕ) → UpInvariant a j → IsHeap less d (up less d a j)
  unfolding up
  up-IsHeap o a j v = up_loop-IsHeap o (j + 1) a j (omega arith) v
