-- ===== src/Base/Maps.antt =====
-- Go maps with string keys, as association lists. The order of the pairs stands for the order in
-- which the runtime iterates, which the source leaves open.
use Prim.Native.Nat.{ℕ}
use mathlib.Core.Path.{◌≡◌, refl}
use mathlib.Core.Logic.{ite}
use mathlib.Core.List.{List, [], ◌∷◌}
use mathlib.Core.Option.{Option, none, some}
use native.Mathlib.Omega.{arith}
use distqueue.Base.Tests.{Bytes, bytes_discrete}

module _ {ℓ} {V : Type ℓ} where
  -- `m[k]`, with its second result
  unfoldable pub get : List (Bytes × V) → Bytes → Option V
  get [] k = none
  get ((j, v) ∷ m) k = ite (bytes_discrete j k) (some v) (get m k)

  -- `m[k] = v`
  unfoldable pub insert : List (Bytes × V) → Bytes → V → List (Bytes × V)
  insert [] k v = (k, v) ∷ []
  insert ((j, w) ∷ m) k v = ite (bytes_discrete j k) ((j, v) ∷ m) ((j, w) ∷ insert m k v)

  -- `delete(m, k)`
  unfoldable pub delete : List (Bytes × V) → Bytes → List (Bytes × V)
  delete [] k = []
  delete ((j, w) ∷ m) k = let rest = delete m k in ite (bytes_discrete j k) rest ((j, w) ∷ rest)

  -- What a `range` over the values visits.
  unfoldable pub values : List (Bytes × V) → List V
  values [] = []
  values ((k, v) ∷ m) = v ∷ values m

  pub get-insert :
      (m : List (Bytes × V)) (k : Bytes) (v : V) (j : Bytes)
      → get (insert m k v) j ≡ ite (bytes_discrete k j) (some v) (get m j)
  unfolding get insert
  get-insert [] k v j = refl
  get-insert ((i, w) ∷ m) k v j = ground (arith, get-insert m k v j)

  pub get-delete :
      (m : List (Bytes × V)) (k j : Bytes)
      → get (delete m k) j ≡ ite (bytes_discrete k j) none (get m j)
  unfolding get delete
  get-delete [] k j = ground arith
  get-delete ((i, w) ∷ m) k j = ground (arith, get-delete m k j)

  -- No key stands twice.
  unfoldable pub IsMap : List (Bytes × V) → Type ℓ
  unfolding get
  IsMap [] = Unit
  IsMap ((k, v) ∷ m) = (get m k ≡ none) × IsMap m

  pub insert-IsMap : (m : List (Bytes × V)) (k : Bytes) (v : V) → IsMap m → IsMap (insert m k v)
  unfolding IsMap insert
  insert-IsMap [] k v h = ground arith
  insert-IsMap ((j, w) ∷ m) k v h = ground (arith, insert-IsMap m k v h.1, get-insert m k v j)

  pub delete-IsMap : (m : List (Bytes × V)) (k : Bytes) → IsMap m → IsMap (delete m k)
  unfolding IsMap delete
  delete-IsMap [] k h = h
  delete-IsMap ((j, w) ∷ m) k h = ground (arith, delete-IsMap m k h.1, get-delete m k j)

test_get : get {V = ℕ} (insert ((1 ∷ 2 ∷ [], 7) ∷ []) (1 ∷ 2 ∷ []) 8) (1 ∷ 2 ∷ []) ≡ some 8
unfolding get insert bytes_discrete
test_get = refl
