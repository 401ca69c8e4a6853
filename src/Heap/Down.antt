-- ===== src/Heap/Down.antt =====
-- `down` turns a slice with one entry too far up into a heap of the same elements.
use distqueue.Base.{
  ℕ, zero, suc, ◌+◌, ◌*◌, ◌<◌, ◌≤◌, ◌≡◌, ◌≢◌, refl, Bool, true, false, List, arith, length,
  SameElements, Bool-cases, inl, inr, leb, ◌∙◌,
}
use distqueue.Heap.{at, swap, parent, first_child, down_loop, down}
use distqueue.Heap.Swap.{length-swap, at-swap, swap-SameElements}
use distqueue.Heap.Order.{IsOrder, IsHeapTo}

module _ {ℓ} {A : Type ℓ} (less : A → A → Bool) (d : A) where
  -- Below `n`, only the edges from `i` to its children may be out of order.
  pub record DownInvariant (a : List A) (i n : ℕ) : Type ℓ where
    pub inside : n ≤ length a
    pub edges : (c : ℕ) → 0 < c → c < n → parent c ≢ i → less (at d a c) (at d a (parent c)) ≡ false
    pub bridge :
        (c : ℕ) → 0 < c → c < n → parent c ≡ i → 0 < i → less (at d a c) (at d a (parent i)) ≡ false

  -- `j` is a child of `i` that no other child comes before.
  record IsFirstChild (a : List A) (i n j : ℕ) : Type ℓ where
    inside : j < n
    child : parent j ≡ i
    below : i < j
    first : (c : ℕ) → 0 < c → c < n → parent c ≡ i → less (at d a c) (at d a j) ≡ false

  first_child-IsFirstChild :
      (o : IsOrder less) (a : List A) (i n : ℕ)
      → 2 * i + 1 < n
      → IsFirstChild a i n (first_child less d a i n)
  unfolding first_child
  first_child-IsFirstChild o a i n h = record {
    inside = ground arith;
    child = ground arith;
    below = ground arith;
    first = λ c p q r.
        ground (arith, o.irrefl (at d a c), o.asym (at d a (2 * i + 2)) (at d a (2 * i + 1)));
  }

  swap-DownInvariant :
      (o : IsOrder less) (a : List A) (i n j : ℕ)
      → DownInvariant a i n
      → IsFirstChild a i n j
      → less (at d a j) (at d a i) ≡ true
      → DownInvariant (swap d a i j) j n
  swap-DownInvariant o a i n j v k before =
      let at' = at-swap d a i j (omega arith) (omega arith) in
      record {
        inside = omega (arith, length-swap d a i j);
        edges = λ c p q r. ground (
          arith,
          at' c,
          at' (parent c),
          v.edges c,
          v.bridge j,
          k.first c,
          o.asym (at d a j) (at d a i),
        );
        bridge = λ c p q r s. ground (arith, at' c, at' (parent j), v.edges c);
      }

  down_loop-IsHeapTo :
      (o : IsOrder less) (f : ℕ) (a : List A) (i n : ℕ)
      → n < f + i
      → DownInvariant a i n
      → IsHeapTo less d n (down_loop less d f a i n)
  unfolding down_loop
  down_loop-IsHeapTo o zero a i n h v = λ c p q. ground (arith, v.edges c)
  down_loop-IsHeapTo o (suc f) a i n h v = elim (Bool-cases (leb n (2 * i + 1))) [
    | inl leaf ↦ rw leaf (λ c p q. ground (arith, v.edges c))
    | inr inner ↦
        let j = first_child less d a i n in
        let k = first_child-IsFirstChild o a i n (ground arith) in
        elim (Bool-cases (less (at d a j) (at d a i))) [
          | inl before ↦
              rw (inner, before)
                (down_loop-IsHeapTo o f (swap d a i j) j n (omega (arith, k.below))
                  (swap-DownInvariant o a i n j v k before))
          | inr stop ↦
              rw (inner, stop)
                (λ c p q.
                  ground (arith, v.edges c, k.first c, o.trans (at d a i) (at d a j) (at d a c)))
        ]
  ]

  first_child-lt :
      (a : List A) (i n : ℕ)
      → 2 * i + 1 < n
      → (i < first_child less d a i n) × (first_child less d a i n < n)
  unfolding first_child
  first_child-lt a i n h = ground arith

  down_loop-same :
      (f : ℕ) (a : List A) (i n : ℕ)
      → n ≤ length a
      → (length (down_loop less d f a i n) ≡ length a)
        × SameElements (down_loop less d f a i n) a
        × (at d (down_loop less d f a i n) n ≡ at d a n)
  unfolding down_loop
  down_loop-same zero a i n h = (refl, λ p. refl, refl)
  down_loop-same (suc f) a i n h = elim (Bool-cases (leb n (2 * i + 1))) [
    | inl leaf ↦ rw leaf (refl, λ p. refl, refl)
    | inr inner ↦
        let j = first_child less d a i n in
        let lt = first_child-lt a i n (ground arith) in
        elim (Bool-cases (less (at d a j) (at d a i))) [
          | inl before ↦
              let size = length-swap d a i j in
              let ih = down_loop-same f (swap d a i j) j n (omega (arith, size)) in
              rw (inner, before)
                (
                  ih.0 ∙ size,
                  λ p. ih.1 p ∙ swap-SameElements d a i j (omega (arith, lt)) (omega (arith, lt)) p,
                  ground
                      (arith, lt, ih.2, at-swap d a i j (omega (arith, lt)) (omega (arith, lt)) n),
                )
          | inr stop ↦ rw (inner, stop) (refl, λ p. refl, refl)
        ]
  ]

  pub down-IsHeapTo :
      (o : IsOrder less) (a : List A) (i n : ℕ)
      → DownInvariant a i n
      → IsHeapTo less d n (down less d a i n)
  unfolding down
  down-IsHeapTo o a i n v = down_loop-IsHeapTo o (n + 1) a i n (omega arith) v

  -- `down` keeps the length, the elements and whatever stands at the bound.
  pub down_same :
      (a : List A) (i n : ℕ)
      → n ≤ length a
      → (length (down less d a i n) ≡ length a)
        × SameElements (down less d a i n) a
        × (at d (down less d a i n) n ≡ at d a n)
  unfolding down
  down_same a i n h = down_loop-same (n + 1) a i n h
