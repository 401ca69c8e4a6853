-- ===== src/Heap/Order.antt =====
-- The order that a heap keeps, and why its root comes first.
use distqueue.Base.{ℕ, zero, suc, ◌<◌, ◌≡◌, Bool, true, false, List, arith, length}
use distqueue.Heap.{at, parent}

-- What `Less` must satisfy: that `a` is not after `b` is reflexive, total and transitive.
pub record IsOrder {ℓ} {A : Type ℓ} (less : A → A → Bool) : Type ℓ where
  pub irrefl : (a : A) → less a a ≡ false
  pub asym : (a b : A) → less a b ≡ true → less b a ≡ false
  pub trans : (a b c : A) → less b a ≡ false → less c b ≡ false → less c a ≡ false

module _ {ℓ} {A : Type ℓ} (less : A → A → Bool) (d : A) where
  -- Of the entries below `n` none comes before its parent.
  abbrev pub IsHeapTo : ℕ → List A → Type 0
  IsHeapTo n a = (c : ℕ) → 0 < c → c < n → less (at d a c) (at d a (parent c)) ≡ false

  abbrev pub IsHeap : List A → Type 0
  IsHeap a = IsHeapTo (length a) a

  root_first_below :
      (o : IsOrder less) (k : ℕ) (a : List A) (i n : ℕ)
      → IsHeapTo n a
      → i < k
      → i < n
      → less (at d a i) (at d a 0) ≡ false
  root_first_below o zero a i n h f p = absurd (omega arith)
  root_first_below o (suc k) a zero n h f p = o.irrefl (at d a 0)
  root_first_below o (suc k) a (suc i) n h f p =
      let j = parent (suc i) in
      o.trans (at d a 0) (at d a j) (at d a (suc i))
        (root_first_below o k a j n h (omega arith) (omega arith)) (h (suc i) (omega arith) p)

  -- No entry of a heap comes before the root.
  pub root_first :
      (o : IsOrder less) (a : List A) (i n : ℕ)
      → IsHeapTo n a
      → i < n
      → less (at d a i) (at d a 0) ≡ false
  root_first o a i n h p = root_first_below o (suc i) a i n h (omega arith) p
