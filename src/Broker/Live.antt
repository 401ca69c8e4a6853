-- ===== src/Broker/Live.antt =====
-- Maps from ids to tasks, seen as the multiset of their values. `count p` of a list says how many
-- of its tasks pass the test `p`.
use distqueue.Base.{
  ℕ, ◌+◌, ◌<◌, ◌≡◌, refl, sym, Bool, true, false, none, some, List, [], ◌∷◌, arith, if◌then◌else◌,
  Bytes, bytes_discrete, ℕ_discrete, ite, count,
}
use distqueue.Base.Int.{ℤ}
use distqueue.Base.Maps.{get, insert, delete, values, get-insert, get-delete}
use distqueue.Task.{Task, Status-discrete}

pub ℤ-discrete : Discrete ℤ
ℤ-discrete = hlevel ℕ_discrete

pub Task-discrete : Discrete Task
Task-discrete = hlevel (ℤ-discrete, bytes_discrete, ℕ_discrete, Status-discrete)

unfoldable pub has_id : Bytes → Task → Bool
has_id k t = ite (bytes_discrete t.id k) true false

unfoldable pub is_task : Task → Task → Bool
is_task u t = ite (Task-discrete t u) true false

-- Every task stands under its own id, and no id stands twice.
unfoldable pub IsKeyed : List (Bytes × Task) → Type 0
IsKeyed [] = Unit
IsKeyed ((k, t) ∷ m) = (k ≡ t.id) × (get m k ≡ none) × IsKeyed m

pub get-IsKeyed :
    (m : List (Bytes × Task)) (k : Bytes) (t : Task) → IsKeyed m → get m k ≡ some t → t.id ≡ k
unfolding IsKeyed get
get-IsKeyed [] k t h e = cc
get-IsKeyed ((j, u) ∷ m) k t h e = ground (arith, get-IsKeyed m k t h.2)

pub insert-IsKeyed :
    (m : List (Bytes × Task)) (k : Bytes) (t : Task) → IsKeyed m → t.id ≡ k → IsKeyed (insert m k t)
unfolding IsKeyed insert get
insert-IsKeyed [] k t h e = (sym e, refl, tt)
insert-IsKeyed ((j, u) ∷ m) k t h e = ground (arith, insert-IsKeyed m k t h.2 e, get-insert m k t j)

pub delete-IsKeyed : (m : List (Bytes × Task)) (k : Bytes) → IsKeyed m → IsKeyed (delete m k)
unfolding IsKeyed delete get
delete-IsKeyed [] k h = h
delete-IsKeyed ((j, u) ∷ m) k h = ground (arith, delete-IsKeyed m k h.2, get-delete m k j)

module _ (p : Task → Bool) where
  abbrev total : List (Bytes × Task) → ℕ
  total m = count p (values m)

  pub count-insert_new :
      (m : List (Bytes × Task)) (k : Bytes) (t : Task)
      → get m k ≡ none
      → total (insert m k t) ≡ total m + (if p t then 1 else 0)
  unfolding insert get values
  count-insert_new [] k t e = omega arith
  count-insert_new ((j, u) ∷ m) k t e = ground (arith, count-insert_new m k t)

  pub count-insert_old :
      (m : List (Bytes × Task)) (k : Bytes) (t u : Task)
      → IsKeyed m
      → get m k ≡ some u
      → total (insert m k t) + (if p u then 1 else 0) ≡ total m + (if p t then 1 else 0)
  unfolding insert get values IsKeyed
  count-insert_old [] k t u h e = cc
  count-insert_old ((j, v) ∷ m) k t u h e = ground (arith, count-insert_old m k t u h.2)

  count-delete_absent :
      (m : List (Bytes × Task)) (k : Bytes) → get m k ≡ none → total (delete m k) ≡ total m
  unfolding delete get values
  count-delete_absent [] k e = refl
  count-delete_absent ((j, v) ∷ m) k e = ground (arith, count-delete_absent m k)

  pub count-delete :
      (m : List (Bytes × Task)) (k : Bytes) (u : Task)
      → IsKeyed m
      → get m k ≡ some u
      → total (delete m k) + (if p u then 1 else 0) ≡ total m
  unfolding delete get values IsKeyed
  count-delete [] k u h e = cc
  count-delete ((j, v) ∷ m) k u h e =
      ground (arith, count-delete m k u h.2, count-delete_absent m k)

-- An id names at most one value.
pub count-has_id :
    (m : List (Bytes × Task)) (k : Bytes)
    → IsKeyed m
    → count (has_id k) (values m) ≡ elim (get m k) [ none ↦ 0 | some _ ↦ 1 ]
unfolding has_id get values IsKeyed
count-has_id [] k h = refl
count-has_id ((j, t) ∷ m) k h = ground (arith, count-has_id m k h.2)

-- A task among the values stands under its id.
pub get_of_count :
    (m : List (Bytes × Task)) (t : Task)
    → IsKeyed m
    → 0 < count (is_task t) (values m)
    → get m t.id ≡ some t
unfolding is_task get values IsKeyed
get_of_count [] t h pos = absurd (omega arith)
get_of_count ((j, u) ∷ m) t h pos = ground (arith, get_of_count m t h.2)

pub count_of_get :
    (m : List (Bytes × Task)) (k : Bytes) (t : Task) (p : Task → Bool)
    → get m k ≡ some t
    → p t ≡ true
    → 0 < count p (values m)
unfolding get values
count_of_get [] k t p e h = cc
count_of_get ((j, u) ∷ m) k t p e h = ground (arith, count_of_get m k t p)
