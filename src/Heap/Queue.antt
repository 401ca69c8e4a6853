-- ===== src/Heap/Queue.antt =====
-- The heap as a priority queue: `push` and `pop` keep the heap and lose nothing, and `pop` returns
-- an element that none of the rest comes before.
use distqueue.Base.{
  ℕ, suc, ◌+◌, ◌-◌, ◌≡◌, ◌∙◌, Bool, List, [], ◌∷◌, ◌++◌, arith, length, SameElements, length-append,
  get_or-append, get_or-take, count-append, count-take_last, length-take_of_le,
}
use distqueue.Heap.{at, swap, parent, up, push, pop, sifted}
use distqueue.Heap.Swap.{length-swap, at-swap, swap-SameElements}
use distqueue.Heap.Order.{IsOrder, IsHeap}
use distqueue.Heap.Up.{UpInvariant, up-IsHeap, up_loop-SameElements}
use distqueue.Heap.Down.{DownInvariant, down-IsHeapTo, down_same}

module _ {ℓ} {A : Type ℓ} (less : A → A → Bool) (d : A) where
  append-UpInvariant :
      (a : List A) (x : A) → IsHeap less d a → UpInvariant less d (a ++ x ∷ []) (length a)
  append-UpInvariant a x h =
      let size = length-append a (x ∷ []) in
      record {
        inside = omega (arith, size);
        edges = λ c p q r.
            ground (
              arith,
              size,
              h c,
              get_or-append a (x ∷ []) c d,
              get_or-append a (x ∷ []) (parent c) d,
            );
        bridge = λ c p q r s. absurd (omega (arith, size));
      }

  pub push-IsHeap :
      (o : IsOrder less) (a : List A) (x : A) → IsHeap less d a → IsHeap less d (push less d a x)
  unfolding push
  push-IsHeap o a x h = up-IsHeap less d o (a ++ x ∷ []) (length a) (append-UpInvariant a x h)

  pub push-SameElements : (a : List A) (x : A) → SameElements (push less d a x) (x ∷ a)
  unfolding push up
  push-SameElements a x p = omega (
    arith,
    up_loop-SameElements less d (length a + 1) (a ++ x ∷ []) (length a)
        (omega (arith, length-append a (x ∷ []))) p,
    count-append p a (x ∷ []),
  )

  module _ (a : List A) (n : ℕ) (size : length a ≡ suc n) where
    swapped : List A
    swapped = swap d a 0 (length a - 1)

    swapped-DownInvariant : IsHeap less d a → DownInvariant less d swapped 0 n
    unfolding swapped
    swapped-DownInvariant h = record {
      inside = omega (arith, length-swap d a 0 (length a - 1));
      edges = λ c p q r.
          let at' = at-swap d a 0 (length a - 1) (omega arith) (omega arith) in
          ground (arith, h c, at' c, at' (parent c));
      bridge = λ c p q r s. absurd (omega arith);
    }

    sifted_same :
        (length (sifted less d a) ≡ suc n)
        × SameElements (sifted less d a) a
        × (at d (sifted less d a) n ≡ at d a 0)
    unfolding sifted
    sifted_same =
        let len = length-swap d a 0 (length a - 1) in
        let same =
          down_same less d (swap d a 0 (length a - 1)) 0 (length a - 1) (omega (arith, len)) in
        (
          omega (arith, same.0, len),
          λ p. same.1 p ∙ swap-SameElements d a 0 (length a - 1) (omega arith) (omega arith) p,
          ground (arith, same.2, at-swap d a 0 (length a - 1) (omega arith) (omega arith) n),
        )

    -- `pop` takes out the root.
    pub pop-root : (pop less d a).0 ≡ at d a 0
    unfolding pop
    pop-root = ground (arith, sifted_same.2)

    pub pop-SameElements : SameElements ((pop less d a).0 ∷ (pop less d a).1) a
    unfolding pop
    pop-SameElements p =
        let e : length a - 1 ≡ n = omega arith in
        rw e (omega (arith, sifted_same.1 p, count-take_last p n (sifted less d a) d sifted_same.0))

    pub length-pop : length (pop less d a).1 ≡ n
    unfolding pop
    length-pop =
        omega
          (arith, length-take_of_le (length a - 1) (sifted less d a) (omega (arith, sifted_same.0)))

    pub pop-IsHeap : (o : IsOrder less) → IsHeap less d a → IsHeap less d (pop less d a).1
    unfolding pop sifted
    pop-IsHeap o h =
        let e : length a - 1 ≡ n = omega arith in
        let kept = get_or-take (length a - 1) (sifted less d a) in
        let sorted =
          down-IsHeapTo less d o (swap d a 0 (length a - 1)) 0 n
            (unfold swapped in swapped-DownInvariant h) in
        λ c p q. ground (arith, length-pop, kept c d, kept (parent c) d, sorted c)
