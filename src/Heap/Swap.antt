-- ===== src/Heap/Swap.antt =====
-- What a swap of two entries does to the slice.
use distqueue.Base.{
  ℕ, ◌<◌, ◌≡◌, ◌∙◌, List, arith, ◌==◌, if◌then◌else◌, length, set, SameElements, length-set,
  get_or-set, count-set,
}
use distqueue.Heap.{at, swap}

module _ {ℓ} {A : Type ℓ} (d : A) where
  pub length-swap : (a : List A) (i j : ℕ) → length (swap d a i j) ≡ length a
  unfolding swap
  length-swap a i j = length-set (set a i (at d a j)) j _ ∙ length-set a i _

  module _ (a : List A) (i j : ℕ) (hi : i < length a) (hj : j < length a) where
    pub at-swap :
        (c : ℕ)
        → at d (swap d a i j) c
          ≡ (if j == c then at d a i else if i == c then at d a j else at d a c)
    unfolding swap
    at-swap c = ground (
      arith,
      length-set a i (at d a j),
      get_or-set (set a i (at d a j)) j (at d a i) c d,
      get_or-set a i (at d a j) c d,
    )

    pub swap-SameElements : SameElements (swap d a i j) a
    unfolding swap
    swap-SameElements p = ground (
      arith,
      length-set a i (at d a j),
      count-set p (set a i (at d a j)) j (at d a i) d,
      count-set p a i (at d a j) d,
      get_or-set a i (at d a j) j d,
    )
